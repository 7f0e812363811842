-- ===== src/Remote/Life/Reused.antt =====
-- The kernel objects of components/remote_client/remote_client.cpp over enables and disables.
use mathlib.Core.Path.{subst}
use zhac_net_core.Base.{
  ℕ, ◌+◌, ◌≡◌, refl, sym, ap, ◌∙◌, Bool, true, List, [], ◌∷◌, ◌++◌, if_either, not, arith,
}
use zhac_net_core.Remote.Stored.{Nvs}
use zhac_net_core.Remote.Life.{
  Life, Kernel, Action, create_objects, register_hook, create_task, is_set, objects_init_once,
  task_spawn, task_ended, enabled_with, remote_client_enable, remote_client_disable,
}

-- What the firmware does to the channel once it has started.
pub data Call : Type 0 where
  enables : (k : Kernel) → Call
  disables : (forget_creds : Bool) → Call
  ends : Call

unfoldable pub creations : List Action → ℕ
creations [] = 0
creations (create_objects ∷ rest) = 1 + creations rest
creations (register_hook ∷ rest) = creations rest
creations (create_task ∷ rest) = creations rest

-- The objects are there, and the handles are those of `l`.
pub record HasObjects (l l' : Life) : Type 0 where
  pub tx : l'.tx_queue ≡ l.tx_queue
  pub rx : l'.rx_queue ≡ l.rx_queue
  pub evt : l'.remote_evt ≡ l.remote_evt
  pub there : l'.objects_ready ≡ true

creations-append : (xs ys : List Action) → creations (xs ++ ys) ≡ creations xs + creations ys
unfolding creations
creations-append [] ys = omega arith
creations-append (create_objects ∷ xs) ys = ap (λ z. 1 + z) (creations-append xs ys) ∙ omega arith
creations-append (register_hook ∷ xs) ys = creations-append xs ys
creations-append (create_task ∷ xs) ys = creations-append xs ys

-- The handles stay, and nothing is made again.
abbrev IsReused : Life → Life × List Action → Type 0
IsReused l (l', made) = HasObjects l l' × (creations made ≡ 0)

spawned-IsReused : (k : Kernel) (l : Life) → l.objects_ready ≡ true → IsReused l (task_spawn k l)
unfolding task_spawn creations
spawned-IsReused k l ready =
    if_either {A = Life × List Action} (IsReused l) (is_set l.task) _ _
      (λ e. (record { tx = refl; rx = refl; evt = refl; there = ready }, refl))
      (λ e. (record { tx = refl; rx = refl; evt = refl; there = ready }, refl))

objects_init_once-ready :
    (k : Kernel) (l : Life) → l.objects_ready ≡ true → objects_init_once k l ≡ (l, [])
unfolding objects_init_once
objects_init_once-ready k l ready =
    if_either {A = Life × List Action} (λ r. r ≡ (l, [])) l.objects_ready _ _ (λ e. refl)
      (λ e. absurd cc)

enabled-IsReused :
    (k : Kernel) (l : Life) → l.objects_ready ≡ true → IsReused l (enabled_with k (l, []))
unfolding enabled_with
enabled-IsReused k l ready =
    if_either {A = Life × List Action} (IsReused l) (not l.objects_ready) _ _
      (λ e. absurd (ground arith))
      (λ e.
        let (kept, none_made) = spawned-IsReused k l ready in
        (record { tx = kept.tx; rx = kept.rx; evt = kept.evt; there = kept.there }, none_made))

enable-IsReused :
    (k : Kernel) (l : Life) → l.objects_ready ≡ true → IsReused l (remote_client_enable k l)
unfolding remote_client_enable
enable-IsReused k l ready =
    subst (λ p. IsReused l (enabled_with k p)) (sym (objects_init_once-ready k l ready))
      (enabled-IsReused k l ready)

module _ (n : Nvs) where
  unfoldable pub call : Call → Life → n.Store → Life × n.Store × List Action
  unfolding remote_client_enable remote_client_disable
  call (enables k) l s = let (l', made) = remote_client_enable k l in (l', s, made)
  call (disables forget_creds) l s =
      let (l', s') = remote_client_disable n forget_creds s l in (l', s', [])
  call ends l s = (task_ended l, s, [])

  unfoldable pub calls : List Call → Life → n.Store → Life × n.Store × List Action
  unfolding call
  calls [] l s = (l, s, [])
  calls (c ∷ cs) l s =
      let (l1, s1, made) = call c l s in
      let (l2, s2, more) = calls cs l1 s1 in (l2, s2, made ++ more)

  call-IsReused :
      (c : Call) (l : Life) (s : n.Store)
      → l.objects_ready ≡ true
      → let (l', s', made) = call c l s in IsReused l (l', made)
  unfolding call creations remote_client_disable
  call-IsReused (enables k) l s ready = enable-IsReused k l ready
  call-IsReused (disables forget_creds) l s ready =
      (record { tx = refl; rx = refl; evt = refl; there = ready }, refl)
  call-IsReused ends l s ready = (record { tx = refl; rx = refl; evt = refl; there = ready }, refl)

  -- Once the kernel objects are there, no sequence of enables, disables and ends of the task makes them
  -- again or changes one of their handles.
  pub calls-IsReused :
      (cs : List Call) (l : Life) (s : n.Store)
      → l.objects_ready ≡ true
      → let (l', s', made) = calls cs l s in HasObjects l l' × (creations made ≡ 0)
  unfolding calls creations
  calls-IsReused [] l s ready = (record { tx = refl; rx = refl; evt = refl; there = ready }, refl)
  calls-IsReused (c ∷ cs) l s ready =
      let (l1, s1, made) = call c l s in
      let (l2, s2, more) = calls cs l1 s1 in
      let (first, none_made) = call-IsReused c l s ready in
      let (rest, none_later) = calls-IsReused cs l1 s1 first.there in
      (
        record {
          tx = rest.tx ∙ first.tx;
          rx = rest.rx ∙ first.rx;
          evt = rest.evt ∙ first.evt;
          there = rest.there;
        },
        creations-append made more ∙ omega (arith, none_made, none_later),
      )
