-- ===== src/WsBridge/Queue/Fifo.antt =====
-- The queue of main/ws_bridge.cpp, whatever is offered to it and taken from it.
use mathlib.Core.List.{append_assoc, append-nil}
use zhac_net_core.Base.{
  ℕ, ◌+◌, ◌≤◌, ◌<◌, ◌%◌, ◌^◌, ◌≡◌, refl, sym, ap, ◌∙◌, inl, inr, true, false, List, [], ◌∷◌, ◌++◌,
  Option, none, some, arith, ltb, if◌then◌else◌, Bool-cases, length, length-append,
}
use zhac_net_core.WsBridge.{Bytes}
use zhac_net_core.WsBridge.Queue.{Tx, tx_enqueue_owned, ws_tx_worker}

-- A producer offers a text, or the worker takes one.
pub data Step : Type 0 where
  offer : Bytes → Step
  serve : Step

abbrev pub to_list : Option Bytes → List Bytes
to_list none = []
to_list (some json) = json ∷ []

-- The code's run, with what the worker broadcasts.
unfoldable pub run : Tx → List Step → Tx × List Bytes
run t [] = (t, [])
run t (offer json ∷ steps) = run (tx_enqueue_owned t json) steps
run t (serve ∷ steps) =
    let (t', json) = ws_tx_worker t in let (t'', sent) = run t' steps in (t'', to_list json ++ sent)

-- The texts that find room, in the order in which they are offered, and the number of the others.
unfoldable pub admitted : (held : List Bytes) → List Step → List Bytes × ℕ
admitted held [] = ([], 0)
admitted held (offer json ∷ steps) =
    let (ins, outs) = admitted (if ltb (length held) 24 then held ++ (json ∷ []) else held) steps in
    if ltb (length held) 24 then (json ∷ ins, outs) else (ins, outs + 1)
admitted [] (serve ∷ steps) = admitted [] steps
admitted (json ∷ held) (serve ∷ steps) = admitted held steps

-- What a run comes to: nothing is reordered or repeated, and what is lost is counted.
pub record IsFifo (held : List Bytes) (drops : ℕ) (steps : List Step) (r : Tx × List Bytes)
    : Type 0 where
  pub left : List Bytes
  pub queue_is : r.0.queue ≡ some left
  pub in_order : r.1 ++ left ≡ held ++ (admitted held steps).0
  pub few : length left ≤ 24
  pub counted : r.0.drops ≡ (drops + (admitted held steps).1) % 2 ^ 32

admitted-room :
    (held : List Bytes) (json : Bytes) (steps : List Step)
    → ltb (length held) 24 ≡ true
    → let (ins, outs) = admitted (held ++ (json ∷ [])) steps in
      admitted held (offer json ∷ steps) ≡ (json ∷ ins, outs)
unfolding admitted
admitted-room held json steps room = rw room refl

admitted-full :
    (held : List Bytes) (json : Bytes) (steps : List Step)
    → ltb (length held) 24 ≡ false
    → let (ins, outs) = admitted held steps in admitted held (offer json ∷ steps) ≡ (ins, outs + 1)
unfolding admitted
admitted-full held json steps full = rw full refl

-- From any queue of at most 24 texts, after any offers and services, what was broadcast and then what
-- is left is what was there and then what found room, in order; at most 24 are left, and every other
-- text that was offered is counted as dropped, on 32 bits.
pub run-IsFifo :
    (steps : List Step) (held : List Bytes) (drops : ℕ)
    → length held ≤ 24
    → drops < 2 ^ 32
    → IsFifo held drops steps (run (record { queue = some held; drops = drops }) steps)
unfolding run admitted tx_enqueue_owned ws_tx_worker
run-IsFifo [] held drops few word = record {
  left = held;
  queue_is = refl;
  in_order = sym (append-nil held);
  few = few;
  counted = omega (arith, word);
}
run-IsFifo (offer json ∷ steps) held drops few word = elim (Bool-cases (ltb (length held) 24)) [
  | inl room ↦
      let f =
        run-IsFifo steps (held ++ (json ∷ [])) drops
          (ground (arith, length-append held (json ∷ []), room)) word in
      rw room (record {
        left = f.left;
        queue_is = f.queue_is;
        in_order =
            f.in_order
            ∙ append_assoc held (json ∷ []) (admitted (held ++ (json ∷ [])) steps).0
            ∙ ap (λ a. held ++ a.0) (sym (admitted-room held json steps room));
        few = f.few;
        counted =
            f.counted ∙ ap (λ a. (drops + a.1) % 2 ^ 32) (sym (admitted-room held json steps room));
      })
  | inr full ↦
      let f = run-IsFifo steps held ((drops + 1) % 2 ^ 32) few (omega arith) in
      rw full (record {
        left = f.left;
        queue_is = f.queue_is;
        in_order = f.in_order ∙ ap (λ a. held ++ a.0) (sym (admitted-full held json steps full));
        few = f.few;
        counted =
            f.counted
            ∙ omega arith
            ∙ ap (λ a. (drops + a.1) % 2 ^ 32) (sym (admitted-full held json steps full));
      })
]
run-IsFifo (serve ∷ steps) [] drops few word =
    let f = run-IsFifo steps [] drops few word in
    record {
      left = f.left;
      queue_is = f.queue_is;
      in_order = f.in_order;
      few = f.few;
      counted = f.counted;
    }
run-IsFifo (serve ∷ steps) (json ∷ held) drops few word =
    let f = run-IsFifo steps held drops (omega (arith, few)) word in
    record {
      left = f.left;
      queue_is = f.queue_is;
      in_order = ap (◌∷◌ json) f.in_order;
      few = f.few;
      counted = f.counted;
    }
