-- ===== src/Rw/Parsing.antt =====
-- The loop of `rw_set_rsp` (src/tas_client/tas_pkt_handler_rw.cpp): its end, and invariants.
use tas_client_api.Prelude.{
  some-inj, none-ne, ◌⊎◌, subst, ℕ, zero, suc, ◌+◌, ◌/◌, ◌%◌, ◌≤◌, ◌<◌, ◌^◌, ◌≡◌, refl, Bool, true,
  false, Mem, Option, none, some, Bool-cases, inl, inr, arith, ltb, ltb→lt, ap, sym, ◌∙◌, ◌||◌,
  ◌!=◌, if◌then◌else◌,
}
use tas_client_api.ErrorInfo.{err_server_con}
use tas_client_api.Base.Errors.{err_connection_protocol}
use tas_client_api.Rw.State.{Rw}
use tas_client_api.Rw.Response.{
  Parse, Step, stop, go, resume, step, rsp_loop, rw_set_rsp, SetRsp, finish, begin,
}
use tas_client_api.Rw.Moves.{
  Moves, refuses, refuses_answer, starts, ends, counts, writes, write_fails, reads, read_fails,
  step-Moves,
}

-- The state that a round leaves.
abbrev pub after : Step → Parse
after (stop s) = s
after (go s) = s

-- A round that goes on has read a word.
abbrev IsForward : Parse → Step → Type 0
IsForward s (stop s') = Unit
IsForward s (go s') = s.wi < s'.wi

Moves-IsForward :
    (rsp : Mem ℕ) (s : Parse) (st : Step) → s.wi < 2 ^ 30 → Moves rsp s st → IsForward s st
Moves-IsForward rsp s _ h (refuses ei next e) = tt
Moves-IsForward rsp s _ h (refuses_answer e) = tt
Moves-IsForward rsp s _ h (starts n k) = omega arith
Moves-IsForward rsp s _ h (ends e) = tt
Moves-IsForward rsp s _ h counts = omega arith
Moves-IsForward rsp s _ h writes = omega arith
Moves-IsForward rsp s _ h (write_fails n e w) = omega arith
Moves-IsForward rsp s _ h (reads n w t b l) = omega arith
Moves-IsForward rsp s _ h (read_fails n e v w t b l) = omega arith

Step-cases : (st : Step) → ((s : Parse) × (st ≡ stop s)) ⊎ ((s : Parse) × (st ≡ go s))
Step-cases (stop s) = inl (s, refl)
Step-cases (go s) = inr (s, refl)

module _ (rsp : Mem ℕ) (wi_max : ℕ) where
  pub halted :
      (fuel : ℕ) (s : Parse) → ltb s.wi wi_max ≡ false → rsp_loop rsp wi_max (suc fuel) s ≡ some s
  unfolding rsp_loop
  halted fuel s e =
      ap (λ b. if b then resume (λ x. rsp_loop rsp wi_max fuel x) (step rsp s) else some s) e

  pub stopped :
      (fuel : ℕ) (s x : Parse)
      → ltb s.wi wi_max ≡ true
      → step rsp s ≡ stop x
      → rsp_loop rsp wi_max (suc fuel) s ≡ some x
  unfolding rsp_loop
  stopped fuel s x e h =
      ap (λ b. if b then resume (λ x. rsp_loop rsp wi_max fuel x) (step rsp s) else some s) e
      ∙ ap (resume (λ x. rsp_loop rsp wi_max fuel x)) h

  pub went :
      (fuel : ℕ) (s x : Parse)
      → ltb s.wi wi_max ≡ true
      → step rsp s ≡ go x
      → rsp_loop rsp wi_max (suc fuel) s ≡ rsp_loop rsp wi_max fuel x
  unfolding rsp_loop
  went fuel s x e h =
      ap (λ b. if b then resume (λ x. rsp_loop rsp wi_max fuel x) (step rsp s) else some s) e
      ∙ ap (resume (λ x. rsp_loop rsp wi_max fuel x)) h

  -- With fuel for every word the loop ends.
  pub rsp_loop-ends :
      (fuel : ℕ) (s : Parse)
      → wi_max ≤ 2 ^ 30
      → wi_max < fuel + s.wi
      → (s' : Parse) × (rsp_loop rsp wi_max (suc fuel) s ≡ some s')
  rsp_loop-ends zero s small enough = (s, halted zero s (ground arith))
  rsp_loop-ends (suc fuel) s small enough = elim (Bool-cases (ltb s.wi wi_max)) [
    | inr e ↦ (s, halted (suc fuel) s e)
    | inl e ↦ elim (Step-cases (step rsp s)) [
      | inl (x, h) ↦ (x, stopped (suc fuel) s x e h)
      | inr (x, h) ↦
          let forward : s.wi < x.wi = subst (IsForward s) h (
            Moves-IsForward rsp s (step rsp s) (omega (arith, small, ltb→lt _ _ e))
              (step-Moves rsp s)) in
          let (y, q) = rsp_loop-ends fuel x small (omega arith) in (y, went (suc fuel) s x e h ∙ q)
    ]
  ]

  -- What every round keeps, the loop keeps.
  pub rsp_loop-keeps :
      (P : Parse → Type 0) (fuel : ℕ) (s s' : Parse)
      → ((x : Parse) (st : Step) → x.wi < wi_max → P x → Moves rsp x st → P (after st))
      → P s
      → rsp_loop rsp wi_max fuel s ≡ some s'
      → P s'
  unfolding rsp_loop
  rsp_loop-keeps P zero s s' keeps h eq = absurd (none-ne eq)
  rsp_loop-keeps P (suc fuel) s s' keeps h eq = elim (Bool-cases (ltb s.wi wi_max)) [
    | inr e ↦ subst P (some-inj (sym (halted fuel s e) ∙ eq)) h
    | inl e ↦ elim (Step-cases (step rsp s)) [
      | inl (x, k) ↦
          subst P (some-inj (sym (stopped fuel s x e k) ∙ eq))
            (keeps s (stop x) (ltb→lt _ _ e) h (subst (Moves rsp s) k (step-Moves rsp s)))
      | inr (x, k) ↦
          rsp_loop-keeps P fuel x s' keeps
            (keeps s (go x) (ltb→lt _ _ e) h (subst (Moves rsp s) k (step-Moves rsp s)))
            (sym (went fuel s x e k) ∙ eq)
    ]
  ]

-- `rw_set_rsp` returns for every response of less than 2^32 bytes and every state: fuel for each word
-- of the response is enough.
pub rw_set_rsp-returns :
    (fuel : ℕ) (rsp : Mem ℕ) (num_bytes : ℕ) (r : Rw) (host : Mem ℕ)
    → num_bytes < 2 ^ 32
    → num_bytes / 4 < fuel
    → (res : SetRsp) × (rw_set_rsp (suc fuel) rsp num_bytes r host ≡ some res)
unfolding rw_set_rsp
rw_set_rsp-returns fuel rsp num_bytes r host small enough =
    elim (Bool-cases (ltb num_bytes 8 || num_bytes % 4 != 0 || ltb r.rsp_size num_bytes)) [
      | inl e ↦ rw e (_, refl)
      | inr e ↦ rw e (
          returned
            (rsp_loop-ends rsp (num_bytes / 4) fuel (begin r host) (omega arith) (omega arith)))
    ]
  where
    returned :
        (s' : Parse) × (rsp_loop rsp (num_bytes / 4) (suc fuel) (begin r host) ≡ some s')
        → (res : SetRsp) × (finish (rsp_loop rsp (num_bytes / 4) (suc fuel) (begin r host))
            ≡ some res)
    returned (s', h) = (record { ret = s'.rw.ei.tas_err; rw = s'.rw; host = s'.host }, ap finish h)

-- What `rw_set_rsp` leaves when the loop ends in `s`, and when it refuses the response at once.
abbrev pub left : Parse → SetRsp
left s = record { ret = s.rw.ei.tas_err; rw = s.rw; host = s.host }

abbrev pub turned_down : Rw → Mem ℕ → SetRsp
turned_down r host = record {
  ret = err_server_con;
  rw = record r { ei = err_connection_protocol };
  host = host;
}

finish-some :
    (o : Option Parse) (res : SetRsp)
    → finish o ≡ some res
    → (s : Parse) × (o ≡ some s) × (left s ≡ res)
finish-some none res h = absurd (none-ne h)
finish-some (some s) res h = (s, refl, some-inj h)

-- A result comes from the first test, or from the loop.
pub rw_set_rsp-cases :
    (fuel : ℕ) (rsp : Mem ℕ) (num_bytes : ℕ) (r : Rw) (host : Mem ℕ) (res : SetRsp)
    → rw_set_rsp fuel rsp num_bytes r host ≡ some res
    → (turned_down r host ≡ res)
      ⊎ ((s : Parse) × (rsp_loop rsp (num_bytes / 4) fuel (begin r host) ≡ some s) × (left s ≡ res))
unfolding rw_set_rsp
rw_set_rsp-cases fuel rsp num_bytes r host res h =
    split (ltb num_bytes 8 || num_bytes % 4 != 0 || ltb r.rsp_size num_bytes) h
  where
    split :
        (b : Bool)
        → (if b
            then some (turned_down r host)
            else finish (rsp_loop rsp (num_bytes / 4) fuel (begin r host)))
          ≡ some res
        → (turned_down r host ≡ res)
          ⊎ ((s : Parse) × (rsp_loop rsp (num_bytes / 4) fuel (begin r host) ≡ some s)
              × (left s ≡ res))
    split true h = inl (some-inj h)
    split false h = inr (finish-some _ res h)
