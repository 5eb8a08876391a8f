-- ===== src/Rw/Cut.antt =====
-- The splitting of an access, for `rw_add_rd` and `rw_add_wr` at once
-- (src/tas_client/tas_pkt_handler_rw.cpp).
use tas_client_api.Prelude.{
  ℕ, zero, suc, ◌+◌, ◌-◌, ◌*◌, ◌/◌, ◌%◌, ◌^◌, ◌≤◌, ◌<◌, ◌≡◌, ◌≢◌, refl, sym, ap, ◌∙◌, subst, ◌⊎◌,
  inl, inr, List, [], ◌∷◌, ◌++◌, append_assoc, append-nil, Option, some, true, ◌&&◌, leb, ltb, ◌==◌,
  entries, Bool-cases, lt→ltb, ltb→lt, leb→le, ℕ_discrete, u64, arith,
}
use tas_client_api.Pkt.Size
use tas_client_api.Rw.Trans.{Trans}
use tas_client_api.Rw.State.{Rw, pkt_finalize}
use tas_client_api.Rw.Split.{
  Cursor, Steps, take_bytes, align_step, tail_step, blk_round, blk_step, blk_loop, blk_part,
  head_part, tail_part, split,
}
use tas_client_api.Rw.Frame.{limits, pkt_finalize-Keeps}
use tas_client_api.Rw.Laws.{pl0_list, trans}
use tas_client_api.Rw.Tiling.{IsLegal, Tiled, Tiled-snoc}
use tas_client_api.Rw.StepsIf.{IsConfigured, IsBlock, StepsLaws}

Cursor-eq :
    {a a' nb nb' d d' : ℕ} (r : Rw)
    → a ≡ a'
    → nb ≡ nb'
    → d ≡ d'
    → ◌≡◌ {A = Cursor}
        (record { rw = r; a = a; nb = nb; d = d })
        (record { rw = r; a = a'; nb = nb'; d = d' })
Cursor-eq r e f g = λ i. record { rw = r; a = e i; nb = f i; d = g i }

module _ (s : Steps) (am m type : ℕ) (law : StepsLaws s am m type) (r0 : Rw) (a0 n0 d0 : ℕ)
    (conf : IsConfigured (limits r0)) (a_fits : a0 + n0 ≤ 2 ^ 64) (d_fits : d0 + n0 ≤ 2 ^ 64)
    (n_fits : n0 < 2 ^ 32) (pl0_fits : r0.pl0_num_trans + n0 < 2 ^ 32) where
  -- The cursor on its way: `n0 - nb` bytes are done, and the packets added make them up.
  pub record At (c : Cursor) : Type 0 where
    pub left : c.nb ≤ n0
    pub a_at : c.a ≡ u64 (a0 + (n0 - c.nb))
    pub d_at : c.d ≡ u64 (d0 + (n0 - c.nb))
    pub room : c.rw.pl0_num_trans + c.nb ≤ r0.pl0_num_trans + n0
    pub same : limits c.rw ≡ limits r0
    pub added : List Trans
    pub list : pl0_list c.rw ≡ pl0_list r0 ++ added
    pub tiled : Tiled am m type added a0 d0 (n0 - c.nb)

  -- A packet of a legal size brings the cursor forward.
  take_bytes-At :
      (c : Cursor) (k : ℕ) → k ≢ 0 → k ≤ c.nb → IsLegal c.a k → At c → At (take_bytes s k c)
  unfolding take_bytes
  take_bytes-At c k ne le legal h =
      let one = law.adds c.rw c.a k c.d ne (omega (arith, h.room)) in
      record {
        left = omega (arith, h.left);
        a_at = omega (arith, h.left, h.a_at);
        d_at = omega (arith, h.left, h.d_at);
        room = omega (arith, h.room, one.count);
        same = one.same ∙ h.same;
        added = h.added ++ trans c.a k am m type c.d ∷ [];
        list =
            one.list
            ∙ ap (λ l. l ++ trans c.a k am m type c.d ∷ []) h.list
            ∙ append_assoc (pl0_list r0) h.added _;
        tiled = subst (Tiled am m type _ a0 d0) (omega (arith, h.left)) (
            Tiled-snoc am m type h.added a0 d0 (n0 - c.nb) c.a c.d k h.tiled
              (omega (arith, h.left, h.a_at)) (omega (arith, h.left, h.d_at)) legal);
      }

  -- What the alignment steps reach: either too few bytes are left, or the address is aligned.
  abbrev IsAligned2 : Cursor → Type 0
  IsAligned2 c = (c.nb ≡ 0) ⊎ (c.a % 2 ≡ 0)

  abbrev IsAligned4 : Cursor → Type 0
  IsAligned4 c = (c.nb < 2) ⊎ (c.a % 4 ≡ 0)

  abbrev IsAligned8 : Cursor → Type 0
  IsAligned8 c = (c.nb < 4) ⊎ (c.a % 8 ≡ 0)

  align1-At : (c : Cursor) → At c → At (align_step s 1 c) × IsAligned2 (align_step s 1 c)
  unfolding align_step take_bytes
  align1-At c h = elim (Bool-cases (leb 1 c.nb && c.a / 1 % 2 == 1)) [
    | inl e ↦
        rw e (take_bytes-At c 1 (omega arith) (ground arith) (inl refl) h, ground (arith, h.left))
    | inr e ↦ rw e (h, ground arith)
  ]

  align2-At :
      (c : Cursor)
      → At c × IsAligned2 c
      → At (align_step s 2 c) × IsAligned2 (align_step s 2 c) × IsAligned4 (align_step s 2 c)
  unfolding align_step take_bytes
  align2-At c (h, a2) = elim (Bool-cases (leb 2 c.nb && c.a / 2 % 2 == 1)) [
    | inl e ↦ rw e (
      take_bytes-At c 2 (omega arith) (ground arith) (inr (inl (refl, ground arith))) h,
      ground (arith, h.left),
      ground (arith, h.left),
    )
    | inr e ↦ rw e (h, a2, ground arith)
  ]

  align4-At :
      (c : Cursor)
      → At c × IsAligned2 c × IsAligned4 c
      → At (align_step s 4 c)
        × IsAligned2 (align_step s 4 c)
        × IsAligned4 (align_step s 4 c)
        × IsAligned8 (align_step s 4 c)
  unfolding align_step take_bytes
  align4-At c (h, a2, a4) = elim (Bool-cases (leb 4 c.nb && c.a / 4 % 2 == 1)) [
    | inl e ↦ rw e (
      take_bytes-At c 4 (omega arith) (ground arith) (inr (inr (inl (refl, ground arith)))) h,
      ground (arith, h.left),
      ground (arith, h.left),
      ground (arith, h.left),
    )
    | inr e ↦ rw e (h, a2, a4, ground arith)
  ]

  -- Closing the PL2 packet changes nothing that `At` speaks of.
  finalize-At : (c : Cursor) → At c → At (record c { rw = pkt_finalize true c.rw })
  finalize-At c h =
      let k = pkt_finalize-Keeps true c.rw in
      record {
        left = h.left;
        a_at = h.a_at;
        d_at = h.d_at;
        room = omega (arith, h.room, ap (λ f. f.num) k);
        same = ap (λ f. f.limit) k ∙ h.same;
        added = h.added;
        list = ap (λ f. entries f.trans 0 f.num) k ∙ h.list;
        tiled = h.tiled;
      }

  blk_round-At :
      (c : Cursor) (n : ℕ)
      → n ≢ 0
      → IsBlock n c.nb
      → c.a % 8 ≡ 0
      → At c
      → At (blk_round s n c) × ((blk_round s n c).a % 8 ≡ 0) × ((blk_round s n c).nb ≡ c.nb - n)
  unfolding blk_round take_bytes
  blk_round-At c n ne b al h =
      let taken = take_bytes-At c n ne b.0 (inr (inr (inr (omega arith, b.1, b.2, al)))) h in
      elim (Bool-cases (ltb n Size.pl0_data_blk_size && ltb n (c.nb / 8 * 8))) [
        | inl e ↦ rw e (finalize-At _ taken, omega (arith, h.left), omega (arith, h.left))
        | inr e ↦ rw e (taken, omega (arith, h.left), omega (arith, h.left))
      ]

  -- A round with no room for a block closes the packet, and leaves the cursor where it is.
  blk_round-zero :
      (c : Cursor) → 8 ≤ c.nb → At c → blk_round s 0 c ≡ record c { rw = pkt_finalize true c.rw }
  unfolding blk_round
  blk_round-zero c le h =
      let test : (ltb 0 Size.pl0_data_blk_size && ltb 0 (c.nb / 8 * 8)) ≡ true = ground arith in
      rw (test, law.adds_nothing c.rw c.a c.d)
        (Cursor-eq _ (omega (arith, h.a_at)) (omega (arith, h.left)) (omega (arith, h.d_at)))

  -- The loop has ended: less than a 64 bit word is left, and the address is aligned.
  abbrev Ends : Option Cursor → Type 0
  Ends o = (c : Cursor) × (o ≡ some c) × At c × (c.nb < 8) × (c.a % 8 ≡ 0)

  blk_loop-Ends :
      (fuel : ℕ) (c : Cursor)
      → 8 ≤ c.nb
      → c.a % 8 ≡ 0
      → At c
      → (c.nb + 1 < fuel) ⊎ ((8 ≤ s.blk_size c.rw c.nb c.a) × (c.nb < fuel))
      → Ends (blk_loop s fuel c)
  unfolding blk_loop blk_step
  blk_loop-Ends zero c le al h enough = absurd (omega arith)
  blk_loop-Ends (suc fuel) c le al h enough =
      let conf' : IsConfigured (limits c.rw) = subst IsConfigured (sym h.same) conf in
      let b = law.block c.rw c.nb c.a conf' in
      elim (ℕ_discrete (s.blk_size c.rw c.nb c.a) 0) [
        | yes e ↦
            rw (e, blk_round-zero c le h, lt→ltb 7 c.nb (omega arith))
              (blk_loop-Ends fuel (record c { rw = pkt_finalize true c.rw }) le al (finalize-At c h)
                (inr (law.fresh c.rw c.nb c.a conf' le, omega arith)))
        | no ne ↦
            let next = blk_round-At c (s.blk_size c.rw c.nb c.a) ne b al h in
            elim (Bool-cases (ltb 7 (blk_round s (s.blk_size c.rw c.nb c.a) c).nb)) [
              | inl e ↦ rw e (
                  blk_loop-Ends fuel (blk_round s (s.blk_size c.rw c.nb c.a) c)
                    (omega (arith, ltb→lt _ _ e)) next.1 next.0 (inl (omega (arith, next.2, b.2))))
              | inr e ↦
                  rw e
                    (blk_round s (s.blk_size c.rw c.nb c.a) c, refl, next.0, ground arith, next.1)
            ]
      ]

  -- What holds before the last steps.
  abbrev IsTail : Cursor → Type 0
  IsTail c = At c × (c.nb < 8) × IsAligned2 c × IsAligned4 c × IsAligned8 c

  blk_part-IsTail :
      (fuel : ℕ) (c : Cursor)
      → At c × IsAligned2 c × IsAligned4 c × IsAligned8 c
      → c.nb + 1 < fuel
      → (c' : Cursor) × (blk_part s fuel c ≡ some c') × IsTail c'
  unfolding blk_part
  blk_part-IsTail fuel c (h, a2, a4, a8) enough = elim (Bool-cases (leb 8 c.nb)) [
    | inl e ↦ rw e (
        let (c', eq, h', lt, al) =
          blk_loop-Ends fuel c (omega (arith, leb→le _ _ e)) (ground arith) h (inl enough) in
        (c', eq, (h', lt, omega arith, omega arith, omega arith)))
    | inr e ↦ rw e (c, refl, (h, ground arith, a2, a4, a8))
  ]

  tail4-At : (c : Cursor) → IsTail c → IsTail (tail_step s 4 c) × ((tail_step s 4 c).nb < 4)
  unfolding tail_step take_bytes
  tail4-At c (h, lt, a2, a4, a8) = elim (Bool-cases (leb 4 c.nb)) [
    | inl e ↦ rw e (
      (
        take_bytes-At c 4 (omega arith) (leb→le _ _ e) (inr (inr (inl (refl, ground arith)))) h,
        ground (arith, h.left),
        ground (arith, h.left),
        ground (arith, h.left),
        ground (arith, h.left),
      ),
      ground (arith, h.left),
    )
    | inr e ↦ rw e ((h, lt, a2, a4, a8), ground arith)
  ]

  tail2-At :
      (c : Cursor) → IsTail c × (c.nb < 4) → At (tail_step s 2 c) × ((tail_step s 2 c).nb < 2)
  unfolding tail_step take_bytes
  tail2-At c ((h, lt, a2, a4, a8), lt4) = elim (Bool-cases (leb 2 c.nb)) [
    | inl e ↦ rw e (
      take_bytes-At c 2 (omega arith) (leb→le _ _ e) (inr (inl (refl, ground arith))) h,
      ground (arith, h.left),
    )
    | inr e ↦ rw e (h, ground arith)
  ]

  tail1-At : (c : Cursor) → At c × (c.nb < 2) → At (tail_step s 1 c) × ((tail_step s 1 c).nb ≡ 0)
  unfolding tail_step take_bytes
  tail1-At c (h, lt) = elim (Bool-cases (leb 1 c.nb)) [
    | inl e ↦
        rw e (take_bytes-At c 1 (omega arith) (leb→le _ _ e) (inl refl) h, ground (arith, h.left))
    | inr e ↦ rw e (h, ground arith)
  ]

  head_part-At :
      (c : Cursor)
      → At c
      → At (head_part s c)
        × IsAligned2 (head_part s c)
        × IsAligned4 (head_part s c)
        × IsAligned8 (head_part s c)
  unfolding head_part
  head_part-At c h = align4-At _ (align2-At _ (align1-At c h))

  tail_part-At : (c : Cursor) → IsTail c → At (tail_part s c) × ((tail_part s c).nb ≡ 0)
  unfolding tail_part
  tail_part-At c h = tail1-At _ (tail2-At _ (tail4-At c h))

  -- The whole: with fuel for every byte the splitting ends, and what it adds makes up the access.
  pub split-At :
      (fuel : ℕ)
      → 0 < n0
      → n0 + 1 < fuel
      → (c : Cursor) × (split s fuel (record { rw = r0; a = a0; nb = n0; d = d0 }) ≡ some c)
        × At c
        × (c.nb ≡ 0)
  unfolding split
  split-At fuel pos enough =
      let head = head_part-At start started in
      let (c, eq, t) = blk_part-IsTail fuel (head_part s start) head (omega (arith, head.0.left)) in
      let done = tail_part-At c t in (tail_part s c, rw eq, done.0, done.1)
    where
      start : Cursor
      start = record { rw = r0; a = a0; nb = n0; d = d0 }

      started : At start
      started = record {
        left = omega arith;
        a_at = omega arith;
        d_at = omega arith;
        room = omega arith;
        same = refl;
        added = [];
        list = sym (append-nil (pl0_list r0));
        tiled = omega arith;
      }
