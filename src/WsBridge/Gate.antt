-- ===== src/WsBridge/Gate.antt =====
-- What the dispatcher of main/ws_bridge.cpp does for a client that has not signed in, and its replies.
use text.Mathlib.Text.{◌==◌ as str_eq}
use zhac_net_core.Base.{
  ℕ, ◌+◌, ◌≤◌, ◌≡◌, refl, sym, ap, ◌∙◌, take, ◌⊎◌, inl, inr, Bool, true, false, ◌&&◌, not, List, [],
  ◌∷◌, ◌++◌, Option, none, some, arith, ltb, if_either, length, codes, All, length-append,
  length-take, ◌<◌,
}
use zhac_net_core.Auth.{Auth}
use zhac_net_core.WsBridge.{
  Bytes, RequestId, int_id, string_id, other_id, json_escape, escape_id, id_text, data_text,
  if_whole, send_envelope_error,
}
use zhac_net_core.WsBridge.Escape.{
  json_escape-read, read_string, kept, read-escaped, length-escaped,
}
use zhac_net_core.WsBridge.Dispatch.{
  ApiStatus, api_ok, api_bad_request, api_not_found, api_internal_error, api_method_not_allowed,
  Envelope, World, Action, reply, erase_flash, restart, reply_to, send_error, rsp_cap, status_text,
  detail_or, error_of, WsCmd, System, ws_lookup, answer, too_large, run, signed_in, await_auth,
  must_sign_in, dispatch_envelope,
}

-- How an id is told: an `int` as it is printed, and a string in quotes, of which a reader of JSON gets a
-- beginning back, or all of it if it has at most 30 bytes, without the control characters that have no
-- short escape; anything else is null.
unfoldable pub IsIdOf : RequestId → Bytes → Type 0
IsIdOf (int_id printed) told = told ≡ printed
IsIdOf (string_id text) told =
    (inside : Bytes) × (told ≡ codes "\"" ++ (inside ++ codes "\""))
    × ((k : ℕ) × (k ≤ length text) × (read_string false inside ≡ some (kept (take k text))))
    × (length text ≤ 30 → read_string false inside ≡ some (kept text))
IsIdOf other_id told = told ≡ codes "null"

id_text-IsIdOf : (id : RequestId) → IsIdOf id (id_text id)
unfolding id_text escape_id IsIdOf
id_text-IsIdOf (int_id printed) = refl
id_text-IsIdOf (string_id text) =
    let (small, (k, part, reads, whole)) = json_escape-read text 64 (omega arith) in
    (
      json_escape text 64,
      refl,
      (k, part, reads),
      λ h.
          ap (read_string false) (whole (omega (arith, h, length-escaped text)))
          ∙ read-escaped text,
    )
id_text-IsIdOf other_id = refl

-- A reply to that client which begins with that id.
unfoldable pub IsReply : ℕ → RequestId → Action → Type 0
IsReply fd id (reply g text) =
    (g ≡ fd)
    × ((told : Bytes) × (rest : Bytes) × IsIdOf id told
        × (text ≡ codes "{\"id\":" ++ (told ++ rest)))
IsReply fd id erase_flash = ⊥
IsReply fd id restart = ⊥

-- There is exactly one.
abbrev pub IsOneReply : ℕ → RequestId → List Action → Type 0
IsOneReply fd id acts = (length acts ≡ 1) × All (IsReply fd id) acts

-- What is printed for an `int` has at most 11 bytes.
abbrev pub IsPrinted : RequestId → Type 0
IsPrinted (int_id printed) = length printed ≤ 11
IsPrinted (string_id text) = Unit
IsPrinted other_id = Unit

length-id_text : (id : RequestId) → IsPrinted id → length (id_text id) ≤ 65
unfolding id_text escape_id
length-id_text (int_id printed) h = omega (arith, h)
length-id_text (string_id text) h = omega (
  arith,
  length-append (json_escape text 64) (codes "\""),
  (json_escape-read text 64 (omega arith)).0,
)
length-id_text other_id h = omega arith

length-id_rest :
    (id : RequestId) (rest : Bytes)
    → IsPrinted id
    → length (codes "{\"id\":" ++ (id_text id ++ rest)) ≤ 71 + length rest
length-id_rest id rest h = omega (arith, length-append (id_text id) rest, length-id_text id h)

whole-IsOneReply :
    (size fd : ℕ) (id : RequestId) (rest : Bytes)
    → IsPrinted id
    → 71 + length rest < size
    → IsOneReply fd id (reply_to fd (if_whole size (codes "{\"id\":" ++ (id_text id ++ rest))))
unfolding if_whole IsReply
whole-IsOneReply size fd id rest p small =
    let text = codes "{\"id\":" ++ (id_text id ++ rest) in
    if_either (λ o. IsOneReply fd id (reply_to fd o)) (ltb (length text) size) (some text) none
      (λ h. (refl, ((refl, (id_text id, rest, id_text-IsIdOf id, refl)), tt)))
      (λ h. absurd (ground (arith, h, length-id_rest id rest p, small)))

error-IsOneReply :
    (fd : ℕ) (id : RequestId) (err : Bytes)
    → IsPrinted id
    → length err ≤ 159
    → IsOneReply fd id (send_error fd id err)
unfolding send_envelope_error
error-IsOneReply fd id err p short =
    whole-IsOneReply 256 fd id (codes ",\"ok\":false,\"err\":\"" ++ (err ++ codes "\"}")) p
      (omega (arith, short, length-append err (codes "\"}")))

length-detail_or :
    (err : Bytes) (o : Option Bytes) → length err ≤ 159 → length (detail_or err o) ≤ 159
length-detail_or err none h = h
length-detail_or err (some []) h = h
length-detail_or err (some (c ∷ cs)) h = omega (arith, length-take 159 (c ∷ cs))

length-status_text : (st : ApiStatus) → length (status_text st) ≤ 159
length-status_text api_ok = omega arith
length-status_text api_bad_request = omega arith
length-status_text api_not_found = omega arith
length-status_text api_internal_error = omega arith
length-status_text api_method_not_allowed = omega arith

length-error_of :
    (w : World) (size : ℕ) (st : ApiStatus) (rsp : Bytes) → length (error_of w size st rsp) ≤ 159
unfolding error_of
length-error_of w size st rsp =
    if_either (λ t. length t ≤ 159) (ltb 0 (length rsp) && ltb (length rsp) size)
      (detail_or (status_text st) (w.err_of rsp)) (status_text st)
      (λ h. length-detail_or (status_text st) (w.err_of rsp) (length-status_text st))
      (λ h. length-status_text st)

whole-cases :
    (size fd : ℕ) (id : RequestId) (rest : Bytes) (o : Option Bytes)
    → if_whole size (codes "{\"id\":" ++ (id_text id ++ rest)) ≡ o
    → (o ≡ none) ⊎ IsOneReply fd id (reply_to fd o)
unfolding if_whole IsReply
whole-cases size fd id rest o =
    let text = codes "{\"id\":" ++ (id_text id ++ rest) in
    if_either (λ x. x ≡ o → (o ≡ none) ⊎ IsOneReply fd id (reply_to fd o)) (ltb (length text) size)
      (some text) none
      (λ h e. rw (← e) (inr (refl, ((refl, (id_text id, rest, id_text-IsIdOf id, refl)), tt))))
      (λ h e. inl (sym e))

answer-IsOneReply :
    (w : World) (fd : ℕ) (e : Envelope) (size : ℕ) (st : ApiStatus) (rsp : Bytes)
    → IsPrinted e.id
    → IsOneReply fd e.id (answer w fd e size st rsp)
unfolding answer
answer-IsOneReply w fd e size api_ok rsp p =
    by_fit (if_whole (size + 1024) (data_text e.id rsp)) refl
  where
    by_fit :
        (o : Option Bytes)
        → if_whole (size + 1024) (data_text e.id rsp) ≡ o
        → IsOneReply fd e.id (answer w fd e size api_ok rsp)
    by_fit none h =
        rw (h, answer) (error-IsOneReply fd e.id (codes "response too large") p (omega arith))
    by_fit (some text) h =
        rw (h, answer)
          (elim (whole-cases (size + 1024) fd e.id _ (some text) h) [ inl x ↦ cc | inr one ↦ one ])
answer-IsOneReply w fd e size api_bad_request rsp p =
    error-IsOneReply fd e.id _ p (length-error_of w size api_bad_request rsp)
answer-IsOneReply w fd e size api_not_found rsp p =
    error-IsOneReply fd e.id _ p (length-error_of w size api_not_found rsp)
answer-IsOneReply w fd e size api_internal_error rsp p =
    error-IsOneReply fd e.id _ p (length-error_of w size api_internal_error rsp)
answer-IsOneReply w fd e size api_method_not_allowed rsp p =
    error-IsOneReply fd e.id _ p (length-error_of w size api_method_not_allowed rsp)

module _ {ℓ} (S : Type ℓ) where
  abbrev Replies : ℕ → RequestId → System S × List Action → Type 0
  Replies fd id r = IsOneReply fd id r.1

  run-IsOneReply :
      (w : World) (s : System S) (fd : ℕ) (e : Envelope) (o : Option (WsCmd S))
      → IsPrinted e.id
      → IsOneReply fd e.id (run S w s fd e o).1
  unfolding run
  run-IsOneReply w s fd e none p = error-IsOneReply fd e.id _ p (omega arith)
  run-IsOneReply w s fd e (some entry) p =
      if_either {A = System S × List Action} (Replies fd e.id) (too_large e.args) _ _
        (λ h. error-IsOneReply fd e.id _ p (omega arith))
        (λ h.
          if_either {A = System S × List Action} (Replies fd e.id) (not w.alloc_ok) _ _
            (λ k. error-IsOneReply fd e.id _ p (omega arith))
            (λ k. answer-IsOneReply w fd e (rsp_cap e.cmd) _ _ p))

  signed_in-IsOneReply :
      (s : System S) (fd : ℕ) (id : RequestId) (r : Auth × Bool)
      → IsPrinted id
      → IsOneReply fd id (signed_in S s fd id r).1
  signed_in-IsOneReply s fd id (auth', true) p =
      whole-IsOneReply 96 fd id (codes ",\"ok\":true}") p (omega arith)
  signed_in-IsOneReply s fd id (auth', false) p = error-IsOneReply fd id _ p (omega arith)

  await-IsOneReply :
      (w : World) (s : System S) (fd : ℕ) (e : Envelope)
      → IsPrinted e.id
      → IsOneReply fd e.id (await_auth S w s fd e).1
  unfolding await_auth
  await-IsOneReply w s fd e p =
      if_either {A = System S × List Action} (Replies fd e.id) (str_eq e.cmd "auth") _ _
        (λ h. signed_in-IsOneReply s fd e.id _ p) (λ h. error-IsOneReply fd e.id _ p (omega arith))

  -- Whatever a command, its arguments and its handler are, it is answered by exactly one reply, to
  -- the client that sent it; only system.storage_reset may not. The reply begins with the id: an int as
  -- it is printed, and a string in quotes that a reader of JSON takes for it, or for a beginning of it
  -- if it has more than 30 bytes, control characters without a short escape left out; null for others.
  pub dispatch_envelope-IsOneReply :
      (rows : List (WsCmd S)) (w : World) (s : System S) (fd : ℕ) (e : Envelope)
      → IsPrinted e.id
      → str_eq e.cmd "system.storage_reset" ≡ false
      → IsOneReply fd e.id (dispatch_envelope S rows w s fd e).1
  unfolding dispatch_envelope
  dispatch_envelope-IsOneReply rows w s fd e p other =
      if_either {A = System S × List Action} (Replies fd e.id) (str_eq e.cmd "") _ _
        (λ h. error-IsOneReply fd e.id _ p (omega arith))
        (λ h.
          if_either {A = System S × List Action} (Replies fd e.id) (must_sign_in S s fd) _ _
            (λ k. await-IsOneReply w s fd e p)
            (λ k.
              if_either {A = System S × List Action} (Replies fd e.id)
                (str_eq e.cmd "system.storage_reset") _ _ (λ l. absurd (ground (arith, l, other)))
                (λ l. run-IsOneReply w s fd e (ws_lookup S rows e.cmd) p)))
