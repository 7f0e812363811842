-- ===== src/Groups/Records.antt =====
-- The store of main/groups_store.cpp as a map from group ids to records, on a flash that does not fail.
use zhac_net_core.Base.{
  ℕ, suc, ◌-◌, ◌≤◌, ◌<◌, ◌≡◌, refl, sym, ap, ◌∙◌, ◌≢◌, Bool, true, false, ◌&&◌, List, Option, none,
  some, ◌==◌, ==_self, ==_ne, if◌then◌else◌, get_or, set, length, length-set, replicate,
  get_or-set_self, get_or-set_ne, arith,
}
use zhac_net_core.Groups.Nvs.{GrpRecord, Flash, Erased, erased, not_found, failed, IsReliable}
use zhac_net_core.Groups.{
  grp_key, grp_get_bmp, grp_next_id, clamped, is_slot_id, loaded, grp_save, grp_create, clear_slot,
  grp_delete,
}
use zhac_net_core.Groups.Slots.{IsFree, full, at, free_slot-IsFree, grp_key-ne}

is_slot_id-true : (id : ℕ) → 0 < id → id ≤ 32 → is_slot_id id ≡ true
is_slot_id-true id low high = ground arith

module _ (f : Flash) where
  -- The record of a group: its slot is taken, and its blob is good.
  unfoldable pub group : f.Store → ℕ → Option GrpRecord
  group s id = if get_or (grp_get_bmp f s) (id - 1) false then loaded f s id else none

  group-free :
      (s : f.Store) (id : ℕ) → get_or (grp_get_bmp f s) (id - 1) false ≡ false → group s id ≡ none
  unfolding group
  group-free s id e = rw e refl

  -- What an operation on group `id` leaves behind: its record is `r`, every other group keeps its own,
  -- and the bitmap keeps its size.
  pub record IsUpdated (s : f.Store) (id : ℕ) (r : Option GrpRecord) (s' : f.Store) : Type 0 where
    pub own : group s' id ≡ r
    pub others : (j : ℕ) → 0 < j → j ≤ 32 → j ≢ id → group s' j ≡ group s j
    pub slots : length (grp_get_bmp f s') ≡ 32

  bmp_of : Option (List Bool) → List Bool
  bmp_of o = elim o [ none ↦ replicate 32 false | some bmp ↦ bmp ]

  get_bmp_same : (s t : f.Store) → f.get_u32 s ≡ f.get_u32 t → grp_get_bmp f s ≡ grp_get_bmp f t
  unfolding grp_get_bmp bmp_of
  get_bmp_same s t e = ap bmp_of e

  get_bmp_new : (s : f.Store) (b : List Bool) → f.get_u32 s ≡ some b → grp_get_bmp f s ≡ b
  unfolding grp_get_bmp bmp_of
  get_bmp_new s b e = ap bmp_of e

  record_of : ℕ → Option (Bool × GrpRecord) → Option GrpRecord
  record_of id o = elim o [
    | none ↦ none
    | some (whole, r) ↦ if whole && r.id == id then some (clamped r) else none
  ]

  -- A store that has the bitmap `b`, and under each key what `blob` says.
  group-eq :
      (s : f.Store) (b : List Bool) (blob : Option (Bool × GrpRecord)) (id : ℕ)
      → grp_get_bmp f s ≡ b
      → f.get_blob s (grp_key id) ≡ blob
      → group s id ≡ (if get_or b (id - 1) false then record_of id blob else none)
  unfolding group loaded record_of
  group-eq s b blob id p q = λ i. if get_or (p i) (id - 1) false then record_of id (q i) else none

  updated :
      (s s' : f.Store) (id : ℕ) (bit : Bool) (blob : Option (Bool × GrpRecord))
      → 0 < id
      → id ≤ 32
      → length (grp_get_bmp f s) ≡ 32
      → grp_get_bmp f s' ≡ set (grp_get_bmp f s) (id - 1) bit
      → f.get_blob s' (grp_key id) ≡ blob
      → ((j : ℕ) → j ≤ 32 → j ≢ id → f.get_blob s' (grp_key j) ≡ f.get_blob s (grp_key j))
      → IsUpdated s id (if bit then record_of id blob else none) s'
  updated s s' id bit blob low high sized bmp own others = record {
    own =
        group-eq s' _ blob id bmp own
        ∙ ap (λ b. if b then record_of id blob else none)
            (get_or-set_self (grp_get_bmp f s) (id - 1) bit false (omega arith));
    others = λ j some_j small ne.
        group-eq s' _ _ j bmp (others j small ne)
        ∙ ap (λ b. if b then record_of j (f.get_blob s (grp_key j)) else none)
            (get_or-set_ne (grp_get_bmp f s) (id - 1) (j - 1) bit false (λ e. ne (omega arith)))
        ∙ sym (group-eq s _ _ j refl refl);
    slots = ap length bmp ∙ length-set (grp_get_bmp f s) (id - 1) bit ∙ sized;
  }

  unfoldable pub saved : f.Store → GrpRecord → f.Store
  saved s r =
      let s1 = (f.set_blob s (grp_key r.id) r).0 in
      (f.commit (f.set_u32 s1 (set (grp_get_bmp f s1) (r.id - 1) true)).0).0

  module _ (ok : IsReliable f) (s : f.Store) where
    pub grp_save-reliable :
        (r : GrpRecord) → 0 < r.id → r.id ≤ 32 → grp_save f s r ≡ (saved s r, true)
    unfolding grp_save saved
    grp_save-reliable r low high =
        let s1 = (f.set_blob s (grp_key r.id) r).0 in
        let b = set (grp_get_bmp f s1) (r.id - 1) true in
        rw (is_slot_id-true r.id low high, (ok.opens s).1, ok.sets_blob s (grp_key r.id) r)
          (λ i. ((f.commit (f.set_u32 s1 b).0).0, ok.commits (f.set_u32 s1 b).0 i))

    saved-IsUpdated :
        (r : GrpRecord)
        → 0 < r.id
        → r.id ≤ 32
        → length (grp_get_bmp f s) ≡ 32
        → IsUpdated s r.id (some (clamped r)) (saved s r)
    unfolding saved record_of
    saved-IsUpdated r low high sized =
        let k = grp_key r.id in
        let s1 = (f.set_blob s k r).0 in
        let b = set (grp_get_bmp f s1) (r.id - 1) true in
        let s2 = (f.set_u32 s1 b).0 in
        let same : grp_get_bmp f s1 ≡ grp_get_bmp f s = get_bmp_same s1 s (ok.u32_blob s k r) in
        let bmp : grp_get_bmp f (f.commit s2).0 ≡ set (grp_get_bmp f s) (r.id - 1) true =
          get_bmp_new (f.commit s2).0 b (ok.u32_commit s2 ∙ ok.u32_u32 s1 b)
          ∙ ap (λ z. set z (r.id - 1) true) same in
        let done =
          updated s (f.commit s2).0 r.id true (some (true, r)) low high sized bmp
            (ok.blob_commit s2 k ∙ ok.blob_u32 s1 b k ∙ ok.blob_self s k r)
            (λ j small ne.
              ok.blob_commit s2 (grp_key j)
              ∙ ok.blob_u32 s1 b (grp_key j)
              ∙ ok.blob_other s k (grp_key j) r (grp_key-ne j r.id small high ne)) in
        let found : record_of r.id (some (true, r)) ≡ some (clamped r) =
          ap (λ b. if b then some (clamped r) else none) (==_self r.id) in
        rw (← found) done

    cleared : ℕ → f.Store
    cleared id =
        let s1 = (f.erase_key s (grp_key id)).0 in
        (f.commit (f.set_u32 s1 (set (grp_get_bmp f s1) (id - 1) false)).0).0

    clear_slot-reliable :
        (t : f.Store) (id : ℕ)
        → clear_slot f t id
          ≡ ((f.commit (f.set_u32 t (set (grp_get_bmp f t) (id - 1) false)).0).0, true)
    unfolding clear_slot
    clear_slot-reliable t id =
        let b = set (grp_get_bmp f t) (id - 1) false in
        rw (ok.sets_u32 t b) (λ i. ((f.commit (f.set_u32 t b).0).0, ok.commits (f.set_u32 t b).0 i))

    grp_delete-reliable : (id : ℕ) → 0 < id → id ≤ 32 → grp_delete f s id ≡ (cleared id, true)
    unfolding grp_delete cleared
    grp_delete-reliable id low high =
        rw (is_slot_id-true id low high, (ok.opens s).1)
          (by_answer (f.erase_key s (grp_key id)).1 refl)
      where
        by_answer :
            (a : Erased)
            → (f.erase_key s (grp_key id)).1 ≡ a
            → (elim (f.erase_key s (grp_key id)).1 as (λ x. f.Store × Bool) [
              | erased ↦ clear_slot f (f.erase_key s (grp_key id)).0 id
              | not_found ↦ clear_slot f (f.erase_key s (grp_key id)).0 id
              | failed ↦ ((f.erase_key s (grp_key id)).0, false)
            ])
              ≡ (cleared id, true)
        by_answer erased e = rw e (clear_slot-reliable (f.erase_key s (grp_key id)).0 id)
        by_answer not_found e = rw e (clear_slot-reliable (f.erase_key s (grp_key id)).0 id)
        by_answer failed e = absurd (ok.erases s (grp_key id) e)

    cleared-IsUpdated :
        (id : ℕ)
        → 0 < id
        → id ≤ 32
        → length (grp_get_bmp f s) ≡ 32
        → IsUpdated s id none (cleared id)
    unfolding cleared
    cleared-IsUpdated id low high sized =
        let k = grp_key id in
        let s1 = (f.erase_key s k).0 in
        let b = set (grp_get_bmp f s1) (id - 1) false in
        let s2 = (f.set_u32 s1 b).0 in
        let same : grp_get_bmp f s1 ≡ grp_get_bmp f s = get_bmp_same s1 s (ok.u32_erase s k) in
        let bmp : grp_get_bmp f (f.commit s2).0 ≡ set (grp_get_bmp f s) (id - 1) false =
          get_bmp_new (f.commit s2).0 b (ok.u32_commit s2 ∙ ok.u32_u32 s1 b)
          ∙ ap (λ z. set z (id - 1) false) same in
        updated s (f.commit s2).0 id false none low high sized bmp
          (ok.blob_commit s2 k ∙ ok.blob_u32 s1 b k ∙ ok.blob_erased s k)
          (λ j small ne.
            ok.blob_commit s2 (grp_key j)
            ∙ ok.blob_u32 s1 b (grp_key j)
            ∙ ok.blob_erase_other s k (grp_key j) (grp_key-ne j id small high ne))

    -- Where the next id points.
    pub next_id-IsFree :
        length (grp_get_bmp f s) ≡ 32 → IsFree (grp_get_bmp f s) 0 32 (grp_next_id f s)
    unfolding grp_next_id
    next_id-IsFree sized = rw ((ok.opens s).0) (free_slot-IsFree (grp_get_bmp f s) 32 0)

-- What a creation leaves: if every slot is taken, nothing but the answer false; otherwise the record
-- under an id that had no record, the smallest such, and nothing else changed.
pub data IsCreated (f : Flash) (s : f.Store) (r : GrpRecord) (s' : f.Store) (r' : GrpRecord)
    (done : Bool) : Type 0 where
  refused :
      done ≡ false
      → s' ≡ s
      → ((j : ℕ) → j < 32 → get_or (grp_get_bmp f s) j false ≡ true)
      → IsCreated f s r s' r' done
  made :
      (id : ℕ)
      → done ≡ true
      → r' ≡ record r { id = id }
      → 0 < id
      → id ≤ 32
      → group f s id ≡ none
      → ((j : ℕ) → suc j < id → get_or (grp_get_bmp f s) j false ≡ true)
      → IsUpdated f s id (some (clamped r')) s'
      → IsCreated f s r s' r' done

pub grp_create-full :
    (f : Flash) (s : f.Store) (r : GrpRecord)
    → grp_next_id f s ≡ 0
    → grp_create f s r ≡ (s, record r { id = 0 }, false)
unfolding grp_create
grp_create-full f s r e = rw e refl

pub grp_create-made :
    (f : Flash) (s : f.Store) (r : GrpRecord) (k : ℕ)
    → grp_next_id f s ≡ suc k
    → let r' : GrpRecord = record r { id = suc k } in
      grp_create f s r ≡ ((grp_save f s r').0, r', (grp_save f s r').1)
unfolding grp_create
grp_create-made f s r k e = rw (e, ==_ne (suc k) 0 (λ h. omega arith)) refl

-- On a flash that does not fail, `grp_create` stores the record under the smallest id whose slot is
-- free, which had no record, answers true, and changes no other group; it answers false and changes
-- nothing if all 32 slots are taken.
pub grp_create_lem :
    (f : Flash) (s : f.Store) (r : GrpRecord)
    → IsReliable f
    → length (grp_get_bmp f s) ≡ 32
    → let (s', r', done) = grp_create f s r in IsCreated f s r s' r' done
grp_create_lem f s r ok sized = by_slot (next_id-IsFree f ok s sized)
  where
    one_less : (k : ℕ) → suc k - 1 ≡ k
    one_less k = omega arith

    by_slot :
        IsFree (grp_get_bmp f s) 0 32 (grp_next_id f s)
        → let (s', r', done) = grp_create f s r in IsCreated f s r s' r' done
    by_slot (full e all) =
        rw (grp_create-full f s r e) (refused refl refl (λ j h. all j (omega arith) (omega arith)))
    by_slot (at k e low high free all) =
        let r' : GrpRecord = record r { id = suc k } in
        let saves = grp_save-reliable f ok s r' (omega arith) (omega arith) in
        rw (grp_create-made f s r k e, saves)
          (made (suc k) refl refl (omega arith) (omega arith)
            (group-free f s (suc k)
              (ap (λ j. get_or (grp_get_bmp f s) j false) (one_less k) ∙ free))
            (λ j h. all j (omega arith) (omega arith))
            (saved-IsUpdated f ok s r' (omega arith) (omega arith) sized))

-- On a flash that does not fail, `grp_delete` of an id from 1 to 32 answers true, the group has no
-- record any more, and no other group changes.
pub grp_delete_lem :
    (f : Flash) (s : f.Store) (id : ℕ)
    → IsReliable f
    → length (grp_get_bmp f s) ≡ 32
    → 0 < id
    → id ≤ 32
    → ((grp_delete f s id).1 ≡ true) × IsUpdated f s id none (grp_delete f s id).0
grp_delete_lem f s id ok sized low high =
    rw (grp_delete-reliable f ok s id low high) (refl, cleared-IsUpdated f ok s id low high sized)

-- A flash that takes the blob of a new group and the commit, but not the bitmap: `grp_save` answers
-- true, and the group has no record.
pub grp_save_unseen :
    (f : Flash) (s t : f.Store) (r : GrpRecord)
    → 0 < r.id
    → r.id ≤ 32
    → f.can_write s ≡ true
    → f.set_blob s (grp_key r.id) r ≡ (t, true)
    → f.get_u32 t ≡ f.get_u32 s
    → ((b : List Bool) → f.set_u32 t b ≡ (t, false))
    → f.commit t ≡ (t, true)
    → get_or (grp_get_bmp f s) (r.id - 1) false ≡ false
    → ((grp_save f s r).1 ≡ true) × (group f (grp_save f s r).0 r.id ≡ none)
unfolding grp_save
grp_save_unseen f s t r low high opens stored kept unset commits free =
    let bmp = get_bmp_same f t s kept in
    rw
      (
        is_slot_id-true r.id low high,
        opens,
        stored,
        unset (set (grp_get_bmp f t) (r.id - 1) true),
        commits,
      )
      (refl, group-free f t r.id (ap (λ b. get_or b (r.id - 1) false) bmp ∙ free))
