-- ===== src/Client/Resets.antt =====
-- `device_connect` and `device_reset_occurred` of CTasClientRw (src/tas_client/tas_client_rw.h).
use tas_client_api.Prelude.{
  ℕ, ◌≡◌, refl, Bool, true, false, not, Option, none, some, Mem, ltb, if◌then◌else◌, if-lem, arith,
  sym, Bool-cases, inl, inr,
}
use tas_client_api.ErrorInfo.{TasReturn}
use tas_client_api.Rw.State.{Rw}
use tas_client_api.Client.MailboxIf.{MailboxIf}
use tas_client_api.Client.Con
use tas_client_api.Client.Con.{Con}
use tas_client_api.Client.Rw.{ClientRw}

module _ {M : Type 0} where
  -- Whether the count of the handler has grown, which is noted.
  abbrev count_resets : ℕ → ClientRw M → Bool × ClientRw M
  count_resets count k = if ltb count k.con.device_reset_count then (false, k) else (
    ltb k.con.device_reset_count count,
    record k { con = record (k.con) { device_reset_count = count } },
  )

  abbrev with_count : ClientRw M → Option Rw → Option (Bool × ClientRw M)
  with_count k none = none
  with_count k (some r) = some (count_resets r.device_reset_count k)

  -- none when a session has started and there is no handler, whose pointer the source then follows.
  unfoldable pub device_reset_occurred : ClientRw M → Option (Bool × ClientRw M)
  device_reset_occurred k =
      if not k.con.session_started then some (false, k) else with_count k k.tph_rw

  -- The count of the handler is noted, if there is one.
  abbrev note_resets : Option Rw → ClientRw M → ClientRw M
  note_resets none k = k
  note_resets (some r) k = record k {
    con = record (k.con) { device_reset_count = r.device_reset_count };
  }

module _ {M : Type 0} (mb_if : MailboxIf M) (stack : Mem ℕ) where
  abbrev after_device_connect : ClientRw M → TasReturn × Con M → TasReturn × ClientRw M
  after_device_connect k (ret, con) = (ret, note_resets k.tph_rw (record k { con = con }))

  unfoldable pub device_connect : ℕ → ClientRw M → TasReturn × ClientRw M
  unfolding Con.device_connect
  device_connect dco k = after_device_connect k (Con.device_connect mb_if stack dco k.con)

-- A client whose handler is `r`.
abbrev pub holding : {M : Type 0} → Rw → ClientRw M → ClientRw M
holding r k = record k { tph_rw = some r }

-- The answer tells whether the count of `r` is beyond the one that `k` noted, and the next is no.
abbrev pub IsToldOnce : {M : Type 0} → Rw → ClientRw M → Type 0
IsToldOnce r k =
    (k' : ClientRw _) × (device_reset_occurred (holding r k)
      ≡ some (ltb k.con.device_reset_count r.device_reset_count, k'))
    × (device_reset_occurred k' ≡ some (false, k'))

module _ {M : Type 0} where
  abbrev recount : ℕ → ClientRw M → ClientRw M
  recount n k = record k { con = record (k.con) { device_reset_count = n } }

  -- To note the count that is noted changes nothing.
  told_no :
      (b : Bool) (n : ℕ) (k : ClientRw M)
      → b ≡ false
      → n ≡ k.con.device_reset_count
      → ◌≡◌ {A = Option (Bool × ClientRw M)} (some (b, recount n k)) (some (false, k))
  told_no b n k e f = λ i. some (e i, recount (f i) k)

  -- A client that has noted the count of its handler sees no reset.
  caught_up :
      (r : Rw) (k : ClientRw M)
      → k.con.device_reset_count ≡ r.device_reset_count
      → device_reset_occurred (holding r k) ≡ some (false, holding r k)
  unfolding device_reset_occurred
  caught_up r k e =
      if-lem (λ (x : Option (Bool × ClientRw M)). x ≡ some (false, holding r k))
        (not k.con.session_started) (λ h. refl)
        (λ h.
          if-lem (λ (x : Bool × ClientRw M). some x ≡ some (false, holding r k))
            (ltb r.device_reset_count k.con.device_reset_count) (λ h. refl)
            (λ h. told_no _ _ (holding r k) (ground arith) (sym e)))

  -- A client in a session, with a handler, tells of a reset exactly if the handler's count of resets
  -- is beyond the count that the client has noted. It does so once: asked again with nothing in
  -- between, it answers no and stays as it is.
  pub device_reset_occurred-once :
      (r : Rw) (k : ClientRw M) → k.con.session_started ≡ true → IsToldOnce r k
  unfolding device_reset_occurred
  device_reset_occurred-once r k started =
      elim (Bool-cases (ltb r.device_reset_count k.con.device_reset_count)) [
        | inl e ↦
            let less : ltb k.con.device_reset_count r.device_reset_count ≡ false = ground arith in
            (holding r k, rw started (rw e (rw less refl)), rw started (rw e refl))
        | inr e ↦ (
          recount r.device_reset_count (holding r k),
          rw started (rw e refl),
          caught_up r (recount r.device_reset_count k) refl,
        )
      ]

  -- Whatever the server answers to `device_connect`, a client with a handler that is asked for a reset
  -- right afterwards answers no, and stays as it is.
  pub device_reset_occurred-device_connect :
      (mb_if : MailboxIf M) (stack : Mem ℕ) (dco : ℕ) (r : Rw) (k : ClientRw M)
      → device_reset_occurred (device_connect mb_if stack dco (holding r k)).1
        ≡ some (false, (device_connect mb_if stack dco (holding r k)).1)
  unfolding device_connect
  device_reset_occurred-device_connect mb_if stack dco r k =
      caught_up r (device_connect mb_if stack dco (holding r k)).1 refl
