-- ===== src/Groups/Requests/Created.antt =====
-- main/api_groups.cpp: a group that was created is the one that is got.
use mathlib.Core.Path.{subst}
use zhac_net_core.Base.{
  ℕ, ◌-◌, ◌≡◌, refl, sym, ap, ◌∙◌, Bool, true, false, some, ==_self, length, set, arith, suc,
}
use zhac_net_core.Json.Utf8.{Bytes}
use zhac_net_core.Groups.Nvs.{GrpRecord, Flash, IsReliable}
use zhac_net_core.Groups.{grp_key, grp_get_bmp, grp_next_id, grp_create, grp_find}
use zhac_net_core.Groups.Slots.{IsFree, full, at}
use zhac_net_core.Groups.Records.{
  saved, grp_save-reliable, next_id-IsFree, grp_create-full, grp_create-made,
}
use zhac_net_core.Groups.Requests.{
  Request, new_record, created, shown, api_group_create, api_group_get,
}
use zhac_net_core.WsBridge.Dispatch.{api_ok}

module _ (f : Flash) (ok : IsReliable f) where
  grp_find-saved : (s : f.Store) (r : GrpRecord) → grp_find f (saved f s r) r.id ≡ some r
  unfolding grp_find saved
  grp_find-saved s r =
      let s1 = (f.set_blob s (grp_key r.id) r).0 in
      let s2 = (f.set_u32 s1 (set (grp_get_bmp f s1) (r.id - 1) true)).0 in
      let blob : f.get_blob (f.commit s2).0 (grp_key r.id) ≡ some (true, r) =
        ok.blob_commit s2 (grp_key r.id) ∙ ok.blob_u32 s1 _ (grp_key r.id) ∙ ok.blob_self s _ r in
      rw ((ok.opens (f.commit s2).0).0, blob, ==_self r.id) refl

  -- What a creation that is answered by true gives is found.
  Found : f.Store × GrpRecord × Bool → Type 0
  Found (s', r', done) = done ≡ true → grp_find f s' r'.id ≡ some r'

  grp_create-Found :
      (s : f.Store) (r : GrpRecord) → length (grp_get_bmp f s) ≡ 32 → Found (grp_create f s r)
  unfolding Found
  grp_create-Found s r sized = by_slot (next_id-IsFree f ok s sized)
    where
      by_slot : IsFree (grp_get_bmp f s) 0 32 (grp_next_id f s) → Found (grp_create f s r)
      by_slot (full e all) = subst Found (sym (grp_create-full f s r e)) (λ h. absurd cc)
      by_slot (at k e low high free all) =
          let r' : GrpRecord = record r { id = suc k } in
          let saves = grp_save-reliable f ok s r' (omega arith) (omega arith) in
          let whole : grp_create f s r ≡ (saved f s r', r', true) =
            grp_create-made f s r k e ∙ ap (λ p. (p.0, r', p.1)) saves in
          subst Found (sym whole) (λ h. grp_find-saved s r')

  get-created :
      (buf : Bytes) (cap : ℕ) (p : f.Store × GrpRecord × Bool)
      → Found p
      → (created f buf cap p).1 ≡ api_ok
      → shown f buf cap (grp_find f (created f buf cap p).0 p.1.id)
        ≡ ((created f buf cap p).1, (created f buf cap p).2)
  unfolding Found created
  get-created buf room (s', r', true) found h = ap (shown f buf room) (found refl)
  get-created buf room (s', r', false) found h = absurd cc

-- On a flash that does not fail, what a creation that is answered with ok has shown is what a request
-- for the new group's id is answered, status and text.
pub api_group_get-create :
    (f : Flash) (buf : Bytes) (cap : ℕ) (s : f.Store) (q asked : Request)
    → IsReliable f
    → length (grp_get_bmp f s) ≡ 32
    → (api_group_create f buf cap (some q) s).1 ≡ api_ok
    → asked.id ≡ (grp_create f s (new_record q)).1.id
    → let (s', st, text) = api_group_create f buf cap (some q) s in
      api_group_get f buf cap (some asked) s' ≡ (st, text)
unfolding api_group_create api_group_get
api_group_get-create f buf cap s q asked ok sized h named =
    let p = grp_create f s (new_record q) in
    ap (λ id. shown f buf cap (grp_find f (created f buf cap p).0 id)) named
    ∙ get-created f ok buf cap p (grp_create-Found f ok s (new_record q) sized) h
