-- ===== src/WsServer/Clients/Updates.antt =====
-- The client table of components/ws_server/ws_server.cpp: what one write does.
use zhac_net_core.Base.{
  ℕ, suc, ◌-◌, ◌<◌, ◌≡◌, sym, ap, ◌∙◌, ◌≢◌, ◌⊎◌, inl, inr, Bool, false, none, some, arith, ◌==◌,
  ==_iff, ==_self, ==_ne, if◌then◌else◌, Bool-cases, get_or, set, length-set, get_or-set_self,
  get_or-set_ne,
}
use zhac_net_core.WsServer.Clients.{Clients}
use zhac_net_core.WsServer.Clients.Lookup.{
  IsValid, status, Lookup, present, absent, find-slot, status-at, status-nowhere,
}

-- A flag written at a used index.
module _ (s : Clients) (v : IsValid s) (i : ℕ) (below : i < s.count) (a : Bool) where
  unfoldable pub flagged : Clients
  flagged = record s { authed = set s.authed i a }

  pub flagged-IsValid : IsValid flagged
  unfolding flagged
  flagged-IsValid = record {
    fds_size = v.fds_size;
    authed_size = length-set s.authed i a ∙ v.authed_size;
    bounded = v.bounded;
    distinct = v.distinct;
  }

  pub status-flagged :
      (g : ℕ) → status flagged g ≡ (if g == get_or s.fds i 0 then some a else status s g)
  unfolding flagged
  status-flagged g = at (find-slot s g v)
    where
      at : Lookup s g → status flagged g ≡ (if g == get_or s.fds i 0 then some a else status s g)
      at (absent e nowhere st) =
          rw (==_ne g _ (λ h. nowhere i below (sym h)), st)
            (status-nowhere flagged g flagged-IsValid nowhere)
      at (present k e used same st) = elim (Bool-cases (k == i)) [
        | inl eq ↦
            let k-i : k ≡ i = (==_iff k i).0 eq in
            let here : get_or s.fds i 0 ≡ g = ap (λ z. get_or s.fds z 0) (sym k-i) ∙ same in
            rw (here, ==_self g)
              (status-at flagged g i flagged-IsValid below here
                ∙ ap some
                    (get_or-set_self s.authed i a false (omega (arith, v.authed_size, v.bounded))))
        | inr ne ↦
            let apart : i ≢ k = λ h. ground arith in
            rw (==_ne g _ (λ h. apart (v.distinct i k below used (sym h ∙ sym same))), st)
              (status-at flagged g k flagged-IsValid used same
                ∙ ap some (get_or-set_ne s.authed i k a false apart))
      ]

-- A descriptor appended to the table.
module _ (s : Clients) (v : IsValid s) (fd : ℕ) (a : Bool) (space : s.count < 3)
    (fresh : (j : ℕ) → j < s.count → get_or s.fds j 0 ≢ fd) where
  unfoldable pub pushed : Clients
  pushed = record s {
    fds = set s.fds s.count fd;
    authed = set s.authed s.count a;
    count = suc s.count;
  }

  old_fd : (j : ℕ) → j < s.count → get_or pushed.fds j 0 ≡ get_or s.fds j 0
  unfolding pushed
  old_fd j h = get_or-set_ne s.fds s.count j fd 0 (λ e. omega arith)

  new_fd : get_or pushed.fds s.count 0 ≡ fd
  unfolding pushed
  new_fd = get_or-set_self s.fds s.count fd 0 (omega (arith, v.fds_size))

  -- An entry of the longer table is the new one or an old one.
  pushed_entry :
      (j : ℕ)
      → j < suc s.count
      → ((j ≡ s.count) × (get_or pushed.fds j 0 ≡ fd))
        ⊎ ((j < s.count) × (get_or pushed.fds j 0 ≡ get_or s.fds j 0))
  pushed_entry j h = elim (Bool-cases (j == s.count)) [
    | inl new ↦
        let e : j ≡ s.count = (==_iff j s.count).0 new in
        inl (e, ap (λ k. get_or pushed.fds k 0) e ∙ new_fd)
    | inr old ↦ let below : j < s.count = ground arith in inr (below, old_fd j below)
  ]

  pushed-distinct :
      (i j : ℕ)
      → i < suc s.count
      → j < suc s.count
      → get_or pushed.fds i 0 ≡ get_or pushed.fds j 0
      → i ≡ j
  pushed-distinct i j hi hj same = decide (pushed_entry i hi) (pushed_entry j hj)
    where
      decide :
          ((i ≡ s.count) × (get_or pushed.fds i 0 ≡ fd))
            ⊎ ((i < s.count) × (get_or pushed.fds i 0 ≡ get_or s.fds i 0))
          → ((j ≡ s.count) × (get_or pushed.fds j 0 ≡ fd))
            ⊎ ((j < s.count) × (get_or pushed.fds j 0 ≡ get_or s.fds j 0))
          → i ≡ j
      decide (inl (p, _)) (inl (q, _)) = p ∙ sym q
      decide (inl (_, p)) (inr (below, q)) = absurd (fresh j below (sym q ∙ sym same ∙ p))
      decide (inr (below, p)) (inl (_, q)) = absurd (fresh i below (sym p ∙ same ∙ q))
      decide (inr (h, p)) (inr (k, q)) = v.distinct i j h k (sym p ∙ same ∙ q)

  pub pushed-IsValid : IsValid pushed
  pushed-IsValid =
      unfold pushed in
      record {
        fds_size = length-set s.fds s.count fd ∙ v.fds_size;
        authed_size = length-set s.authed s.count a ∙ v.authed_size;
        bounded = omega arith;
        distinct = pushed-distinct;
      }

  pub status-pushed : (g : ℕ) → status pushed g ≡ (if g == fd then some a else status s g)
  unfolding pushed
  status-pushed g = elim (Bool-cases (g == fd)) [
    | inl here ↦ rw here (
        status-at pushed g s.count pushed-IsValid (omega arith)
          (new_fd ∙ sym ((==_iff g fd).0 here))
        ∙ ap some (get_or-set_self s.authed s.count a false (omega (arith, v.authed_size))))
    | inr other ↦ rw other (at other (find-slot s g v))
  ]
    where
      at : (g == fd) ≡ false → Lookup s g → status pushed g ≡ status s g
      at other (present k e used same st) = rw st (
          status-at pushed g k pushed-IsValid (omega arith) (old_fd k used ∙ same)
          ∙ ap some (get_or-set_ne s.authed s.count k a false (λ h. omega arith)))
      at other (absent e nowhere st) =
          rw st
            (status-nowhere pushed g pushed-IsValid λ j h same. decide j same (pushed_entry j h))
        where
          decide :
              (j : ℕ)
              → get_or pushed.fds j 0 ≡ g
              → ((j ≡ s.count) × (get_or pushed.fds j 0 ≡ fd))
                ⊎ ((j < s.count) × (get_or pushed.fds j 0 ≡ get_or s.fds j 0))
              → ⊥
          decide j same (inl (_, p)) = let eq : g ≡ fd = sym same ∙ p in ground arith
          decide j same (inr (below, p)) = nowhere j below (sym p ∙ same)

-- The entry at index `i` overwritten by the last one, and the table one shorter.
module _ (s : Clients) (v : IsValid s) (i : ℕ) (below : i < s.count) where
  unfoldable pub dropped : Clients
  dropped = record s {
    fds = set s.fds i (get_or s.fds (s.count - 1) 0);
    authed = set s.authed i (get_or s.authed (s.count - 1) false);
    count = s.count - 1;
  }

  -- Where an entry of the shorter table was before.
  origin : ℕ → ℕ
  origin j = if j == i then s.count - 1 else j

  origin_fd : (j : ℕ) → get_or dropped.fds j 0 ≡ get_or s.fds (origin j) 0
  unfolding dropped origin
  origin_fd j = elim (Bool-cases (j == i)) [
    | inl here ↦
        rw (here, (==_iff j i).0 here)
          (get_or-set_self s.fds i (get_or s.fds (s.count - 1) 0) 0
            (omega (arith, v.fds_size, v.bounded)))
    | inr other ↦
        rw other (get_or-set_ne s.fds i j (get_or s.fds (s.count - 1) 0) 0 (λ e. ground arith))
  ]

  origin_authed : (j : ℕ) → get_or dropped.authed j false ≡ get_or s.authed (origin j) false
  unfolding dropped origin
  origin_authed j = elim (Bool-cases (j == i)) [
    | inl here ↦
        rw (here, (==_iff j i).0 here)
          (get_or-set_self s.authed i (get_or s.authed (s.count - 1) false) false
            (omega (arith, v.authed_size, v.bounded)))
    | inr other ↦
        rw other (
          get_or-set_ne s.authed i j (get_or s.authed (s.count - 1) false) false
            (λ e. ground arith))
  ]

  origin_used : (j : ℕ) → j < s.count - 1 → (origin j < s.count) × (origin j ≢ i)
  unfolding origin
  origin_used j h = ground arith

  origin-injective : (j k : ℕ) → j < s.count - 1 → k < s.count - 1 → origin j ≡ origin k → j ≡ k
  unfolding origin
  origin-injective j k hj hk e = ground arith

  -- Every entry but the dropped one has a place.
  origin-onto : (k : ℕ) → k < s.count → k ≢ i → (j : ℕ) × (j < s.count - 1) × (origin j ≡ k)
  unfolding origin
  origin-onto k h ne = elim (Bool-cases (k == s.count - 1)) [
    | inl end ↦ (i, ground arith, ground arith)
    | inr inner ↦ (k, ground arith, ground arith)
  ]

  pub dropped-IsValid : IsValid dropped
  dropped-IsValid =
      unfold dropped in
      record {
        fds_size = length-set s.fds i _ ∙ v.fds_size;
        authed_size = length-set s.authed i _ ∙ v.authed_size;
        bounded = omega (arith, v.bounded);
        distinct = λ j k hj hk same. origin-injective j k hj hk (
            v.distinct (origin j) (origin k) (origin_used j hj).0 (origin_used k hk).0
              (sym (origin_fd j) ∙ same ∙ origin_fd k));
      }

  pub status-dropped :
      (g : ℕ) → status dropped g ≡ (if g == get_or s.fds i 0 then none else status s g)
  unfolding dropped
  status-dropped g = elim (Bool-cases (g == get_or s.fds i 0)) [
    | inl here ↦ rw here (
        status-nowhere dropped g dropped-IsValid λ j h same. (origin_used j h).1 (
          v.distinct (origin j) i (origin_used j h).0 below
            (sym (origin_fd j) ∙ same ∙ (==_iff g _).0 here)))
    | inr other ↦ rw other (at other (find-slot s g v))
  ]
    where
      at : (g == get_or s.fds i 0) ≡ false → Lookup s g → status dropped g ≡ status s g
      at other (present k e used same st) =
          let apart : k ≢ i = λ h.
            let eq : g ≡ get_or s.fds i 0 = sym same ∙ ap (λ z. get_or s.fds z 0) h in
            ground arith in
          let (j, h, from) = origin-onto k used apart in
          rw st (
            status-at dropped g j dropped-IsValid h
              (origin_fd j ∙ ap (λ z. get_or s.fds z 0) from ∙ same)
            ∙ ap some (origin_authed j ∙ ap (λ z. get_or s.authed z false) from))
      at other (absent e nowhere st) = rw st (
          status-nowhere dropped g dropped-IsValid
            λ j h same. nowhere (origin j) (origin_used j h).0 (sym (origin_fd j) ∙ same))
