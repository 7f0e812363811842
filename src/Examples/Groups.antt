-- ===== src/Examples/Groups.antt =====
-- Runs of main/groups_store.cpp, on a flash that is a function from keys to records.
use zhac_net_core.Base.{
  ℕ, decimal, hex_text, ◌≡◌, refl, ap, ◌∙◌, ◌≢◌, inl, inr, Bool, true, false, ◌&&◌, List, [], ◌∷◌,
  ◌++◌, Option, none, some, ◌==◌, ==_self, if◌then◌else◌, Bool-cases, replicate, codes, arith,
}
use zhac_net_core.Groups.Nvs.{GrpRecord, Flash, Erased, erased, not_found, failed, IsReliable}
use zhac_net_core.Groups.{grp_get_bmp, grp_create, grp_next_id, grp_save}
use zhac_net_core.Groups.Json.{emit_members, id_text, member_text}
use zhac_net_core.Json.Utf8.{utf8_seq_len}
use zhac_net_core.Json.Writer.{finish, raw, fmt, str, new, str_round, put as writer_put}
use zhac_net_core.Groups.Records.{IsCreated, grp_create_lem}
use zhac_net_core.Groups.Requests.{Request, api_group_create, api_group_get}
use zhac_net_core.Groups.Requests.Created.{api_group_get-create}

unfoldable same_key : List ℕ → List ℕ → Bool
same_key [] [] = true
same_key [] (y ∷ ys) = false
same_key (x ∷ xs) [] = false
same_key (x ∷ xs) (y ∷ ys) = x == y && same_key xs ys

same_key_self : (k : List ℕ) → same_key k k ≡ true
unfolding same_key
same_key_self [] = refl
same_key_self (x ∷ xs) = rw (==_self x, same_key_self xs) refl

same_key_sound : (j k : List ℕ) → same_key j k ≡ true → j ≡ k
unfolding same_key
same_key_sound [] [] e = refl
same_key_sound [] (y ∷ ys) e = absurd (ground (arith, e))
same_key_sound (x ∷ xs) [] e = absurd (ground (arith, e))
same_key_sound (x ∷ xs) (y ∷ ys) e =
    let both : (x ≡ y) × (same_key xs ys ≡ true) = ground (arith, e) in
    ap (λ z. z ∷ xs) both.0 ∙ ap (◌∷◌ y) (same_key_sound xs ys both.1)

same_key_ne : (j k : List ℕ) → j ≢ k → same_key j k ≡ false
same_key_ne j k ne = elim (Bool-cases (same_key j k)) [
  | inl e ↦ absurd (ne (same_key_sound j k e))
  | inr e ↦ e
]

record Kept : Type 0 where
  bmp : Option (List Bool)
  blob : List ℕ → Option (Bool × GrpRecord)

abbrev put : Kept → List ℕ → Option (Bool × GrpRecord) → Kept
put s k o = record s { blob = λ j. if same_key j k then o else s.blob j }

-- Whether the bitmap can be written is an argument.
abbrev flash : Bool → Flash
flash bitmap_ok = record {
  Store = Kept;
  can_read = λ s. true;
  can_write = λ s. true;
  get_u32 = λ s. s.bmp;
  set_u32 = λ s b. if bitmap_ok then (record s { bmp = some b }, true) else (s, false);
  get_blob = λ s k. s.blob k;
  set_blob = λ s k r. (put s k (some (true, r)), true);
  erase_key = λ s k. (put s k none, elim (s.blob k) [ none ↦ not_found | some r ↦ erased ]);
  commit = λ s. (s, true);
}

erase_answer :
    (o : Option (Bool × GrpRecord))
    → (elim o as (λ x. Erased) [ none ↦ not_found | some r ↦ erased ]) ≢ failed
erase_answer none = λ e. cc
erase_answer (some r) = λ e. cc

flash-IsReliable : IsReliable (flash true)
flash-IsReliable = record {
  opens = λ s. (refl, refl);
  sets_u32 = λ s b. refl;
  sets_blob = λ s k r. refl;
  commits = λ s. refl;
  erases = λ s k. erase_answer (s.blob k);
  u32_u32 = λ s b. refl;
  u32_blob = λ s k r. refl;
  u32_erase = λ s k. refl;
  u32_commit = λ s. refl;
  blob_self = λ s k r. ap (λ b. if b then some (true, r) else s.blob k) (same_key_self k);
  blob_other = λ s k j r ne. ap (λ b. if b then some (true, r) else s.blob j) (same_key_ne j k ne);
  blob_u32 = λ s b k. refl;
  blob_erased = λ s k. ap (λ b. if b then none else s.blob k) (same_key_self k);
  blob_erase_other = λ s k j ne. ap (λ b. if b then none else s.blob j) (same_key_ne j k ne);
  blob_commit = λ s k. refl;
}

abbrev lamp : GrpRecord
lamp = record {
  id = 0;
  name = codes "desk" ++ replicate 28 0;
  member_count = 1;
  members = record { ieee = 4660; ep = 1 } ∷ replicate 15 (record { ieee = 0; ep = 0 });
}

abbrev blank : Kept
blank = record { bmp = some (replicate 32 false); blob = λ k. none }

grp_create_lem_example :
    let (s', r', done) = grp_create (flash true) blank lamp in
    IsCreated (flash true) blank lamp s' r' done
unfolding grp_get_bmp
grp_create_lem_example = grp_create_lem (flash true) blank lamp flash-IsReliable refl

abbrev request : Request
request = record {
  id = 0;
  name = some (codes "desk");
  members = some (record { ieee = some 4660; ep = 1 } ∷ []);
}

api_group_get-create_example :
    let buf : List ℕ = replicate 128 0 in
    let (s', st, text) = api_group_create (flash true) buf 128 (some request) blank in
    api_group_get (flash true) buf 128 (some (record request { id = 1 })) s' ≡ (st, text)
unfolding api_group_create grp_get_bmp grp_create grp_next_id grp_save finish raw emit_members fmt
    str new id_text decimal utf8_seq_len str_round writer_put member_text hex_text
api_group_get-create_example =
    api_group_get-create (flash true) (replicate 128 0) 128 blank request
      (record request { id = 1 }) flash-IsReliable refl refl refl
