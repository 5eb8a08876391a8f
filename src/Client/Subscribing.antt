-- ===== src/Client/Subscribing.antt =====
-- What `subscribe` and `unsubscribe` of CTasClientChl leave of the subscription
-- (src/tas_client/tas_client_chl.cpp).
use tas_client_api.Prelude.{
  ℕ, zero, suc, ◌+◌, ◌^◌, ◌%◌, ◌<◌, ◌≡◌, refl, sym, ◌⊎◌, inl, inr, arith, Bool, true, false, ◌&&◌,
  ◌||◌, not, Option, none, some, some-inj, Mem, ltb, leb, ◌==◌, ◌!=◌, if-lem, byte1, none-ne, subst,
}
use tas_client_api.Pkt.Cmd
use tas_client_api.ErrorInfo.{TasReturn, is_err, ErrorInfo}
use tas_client_api.Chl.Handler.{
  Chl, Subscribed, cht_none, chso_default, chso_exclusive, chl_num_max, is_cht,
  get_pkt_rq_subscribe, set_pkt_rsp_subscribe, get_pkt_rq_unsubscribe, set_pkt_rsp_unsubscribe,
}
use tas_client_api.Client.MailboxIf.{Reply, MailboxIf}
use tas_client_api.Client.Chl.{
  ClientChl, Subscription, with_mailbox, with_chl, chl_handler, default_timeout_ms,
}
use tas_client_api.Client.Channel.{
  prio_requested, wrong_params, is_rcv, after_subscribe, exit, request_subscription, check_params,
  subscribe, finish_unsubscribe, unsubscribe_loop, after_send, unsubscribe,
}
use tas_client_api.Client.Keeps.{IsKept}

-- The parameters that are not refused.
wrong_params-none :
    (chl cht chso : ℕ)
    → wrong_params chl cht chso ≡ none
    → (chl < chl_num_max) × (is_cht cht ≡ true)
wrong_params-none chl cht chso =
    if-lem P (leb chl_num_max chl) (λ h. λ e. absurd (none-ne (sym e)))
      (λ low.
        if-lem P (not (is_cht cht)) (λ h. λ e. absurd (none-ne (sym e)))
          (λ known.
            if-lem P (chso != chso_default && chso != chso_exclusive)
              (λ h. λ e. absurd (none-ne (sym e))) (λ h. λ e. (ground arith, ground arith))))
  where
    P : Option ErrorInfo → Type 0
    P o = o ≡ none → (chl < chl_num_max) × (is_cht cht ≡ true)

module _ {M : Type 0} where
  -- A client that has entered a channel.
  pub record IsEntered (chl direction : ℕ) (d : ClientChl M) : Type 0 where
    pub cht : d.chl_cht ≡ direction
    pub num : d.chl_num ≡ chl
    pub active : d.con.rcv_chl_active ≡ is_rcv direction

  -- Either the subscription stays, or the client has entered the channel.
  abbrev pub IsAsked : ℕ → ℕ → ClientChl M → Subscription M → Type 0
  IsAsked chl cht k s = IsKept k s.client ⊎ IsEntered chl cht s.client

  after_subscribe-Asked :
      (chl cht : ℕ) (prio : Option ℕ) (k d : ClientChl M) (s : Subscribed)
      → IsKept k d
      → IsAsked chl cht k (after_subscribe chl cht prio d s)
  after_subscribe-Asked chl cht prio k d s h =
      if-lem (IsAsked chl cht k) (is_err s.ret)
        (λ e. inl (record { cht = h.cht; num = h.num; active = h.active }))
        (λ e. inr (record { cht = refl; num = refl; active = refl }))

module _ {M : Type 0} (mb_if : MailboxIf M) (stack : Mem ℕ) where
  request_subscription-Asked :
      (chl cht chso : ℕ) (prio : Option ℕ) (k : ClientChl M)
      → IsAsked chl cht k (request_subscription mb_if stack chl cht chso prio k)
  unfolding request_subscription get_pkt_rq_subscribe
  request_subscription-Asked chl cht chso prio k =
      if-lem (IsAsked chl cht k) r.ret
        (λ ok.
          after_subscribe-Asked chl cht prio k received
            (set_pkt_rsp_subscribe r.rsp (chl_handler received))
            (record { cht = refl; num = refl; active = refl }))
        (λ e. inl (record { cht = refl; num = refl; active = refl }))
    where
      built : ClientChl M
      built = with_chl (get_pkt_rq_subscribe chl cht chso (prio_requested prio) (chl_handler k)) k

      r : Reply M
      r = mb_if.execute built.tph_chl.rq_buf stack 1 built.con.mailbox

      received : ClientChl M
      received = with_mailbox r.mailbox built

  -- The client of a subscription: it stays as it is, but for the number of a channel that it has
  -- not; or it was idle and has entered the channel, which exists.
  abbrev pub IsTried : ℕ → ℕ → ClientChl M → Subscription M → Type 0
  IsTried chl cht k s =
      IsKept k s.client
      ⊎ ((k.chl_cht ≡ cht_none)
          × (IsKept (record k { chl_num = chl_num_max }) s.client
              ⊎ ((chl < chl_num_max) × (is_cht cht ≡ true) × IsEntered chl cht s.client)))

  check_params-Tried :
      (chl cht chso : ℕ) (prio : Option ℕ) (k : ClientChl M) (o : Option ErrorInfo)
      → (o ≡ none → (chl < chl_num_max) × (is_cht cht ≡ true))
      → IsKept k (check_params mb_if stack chl cht chso prio k o).client
        ⊎ ((chl < chl_num_max)
            × (is_cht cht ≡ true)
            × IsEntered chl cht (check_params mb_if stack chl cht chso prio k o).client)
  check_params-Tried chl cht chso prio k (some ei) h =
      inl (record { cht = refl; num = refl; active = refl })
  check_params-Tried chl cht chso prio k none h =
      elim (request_subscription-Asked chl cht chso prio k) [
        | inl kept ↦ inl kept
        | inr entered ↦ inr ((h refl).0, (h refl).1, entered)
      ]

  pub subscribe-Tried :
      (chl cht chso : ℕ) (prio : Option ℕ) (k : ClientChl M)
      → IsTried chl cht k (subscribe mb_if stack chl cht chso prio k)
  unfolding subscribe
  subscribe-Tried chl cht chso prio k =
      if-lem (IsTried chl cht k) (not k.con.session_started)
        (λ h. inl (record { cht = refl; num = refl; active = refl }))
        (λ h.
          if-lem (IsTried chl cht k) (k.chl_cht != cht_none)
            (λ h. inl (record { cht = refl; num = refl; active = refl }))
            (λ idle. inr (
              ground arith,
              check_params-Tried chl cht chso prio (record k { chl_num = chl_num_max })
                  (wrong_params chl cht chso) (wrong_params-none chl cht chso),
            )))

module _ {M : Type 0} (mb_if : MailboxIf M) (time_ms : M → ℕ) where
  -- A result leaves the subscription of `k`.
  abbrev Keeping : ClientChl M → Option (TasReturn × ClientChl M) → Type 0
  Keeping k o = (r : TasReturn × ClientChl M) → o ≡ some r → IsKept k r.1

  finish-Kept :
      (k d : ClientChl M) (x : TasReturn × Chl)
      → IsKept k d
      → IsKept k (finish_unsubscribe mb_if time_ms x d).1
  finish-Kept k d (ret, c) h =
      if-lem (λ (x : TasReturn × ClientChl M). IsKept k x.1) (is_err ret)
        (λ e. record { cht = h.cht; num = h.num; active = h.active })
        (λ e. record { cht = h.cht; num = h.num; active = h.active })

  unsubscribe_loop-Keeping :
      (fuel time_start_ms : ℕ) (rsp : Mem ℕ) (k d : ClientChl M)
      → IsKept k d
      → Keeping k (unsubscribe_loop mb_if time_ms fuel time_start_ms rsp d)
  unfolding unsubscribe_loop
  unsubscribe_loop-Keeping zero time_start_ms rsp k d h = λ r. λ e. absurd (none-ne e)
  unsubscribe_loop-Keeping (suc fuel) time_start_ms rsp k d h =
      if-lem (Keeping k) r.ret
        (λ ok.
          if-lem (Keeping k)
            (byte1 (r.rsp 1) == Cmd.pl1_chl_unsubscribe
              || ltb ((time_start_ms + default_timeout_ms) % 2 ^ 64) (time_ms r.mailbox))
            (λ last. λ x. λ e.
              subst (λ (x : TasReturn × ClientChl M). IsKept k x.1) (some-inj e)
                (finish-Kept k received (set_pkt_rsp_unsubscribe r.rsp (chl_handler received))
                  kept))
            (λ more. unsubscribe_loop-Keeping fuel time_start_ms r.rsp k received kept))
        (λ bad. λ x. λ e.
          subst (λ (x : TasReturn × ClientChl M). IsKept k x.1) (some-inj e)
            (record { cht = h.cht; num = h.num; active = h.active }))
    where
      r : Reply M
      r = mb_if.receive rsp d.con.mailbox

      received : ClientChl M
      received = with_mailbox r.mailbox d

      kept : IsKept k received
      kept = record { cht = h.cht; num = h.num; active = h.active }

  after_send-Keeping :
      (fuel : ℕ) (stack : Mem ℕ) (k : ClientChl M) (x : Bool × M)
      → Keeping k (after_send mb_if time_ms fuel stack k x)
  after_send-Keeping fuel stack k (false, m) = λ r. λ e.
      subst (λ (x : TasReturn × ClientChl M). IsKept k x.1) (some-inj e)
        (record { cht = refl; num = refl; active = refl })
  after_send-Keeping fuel stack k (true, m) =
      unsubscribe_loop-Keeping fuel (time_ms m) stack k (with_mailbox m k)
        (record { cht = refl; num = refl; active = refl })

  -- The client of a result: it was idle and is kept, or it has left its channel.
  abbrev pub IsLeft : ClientChl M → Option (TasReturn × ClientChl M) → Type 0
  IsLeft k o =
      (r : TasReturn × ClientChl M)
      → o ≡ some r
      → ((k.chl_cht ≡ cht_none) × IsKept k r.1) ⊎ IsKept (exit k) r.1

  pub unsubscribe-Left :
      (fuel : ℕ) (stack : Mem ℕ) (k : ClientChl M)
      → IsLeft k (unsubscribe mb_if time_ms fuel stack k)
  unfolding unsubscribe get_pkt_rq_unsubscribe
  unsubscribe-Left fuel stack k =
      if-lem (IsLeft k) (k.chl_cht == cht_none)
        (λ idle. λ r. λ e. inl (
          ground arith,
          subst (λ (x : TasReturn × ClientChl M). IsKept k x.1) (some-inj e)
              (record { cht = refl; num = refl; active = refl }),
        ))
        (λ h. λ r. λ e. inr (
          left (
            after_send-Keeping fuel stack built
              (mb_if.send built.tph_chl.rq_buf 1 built.con.mailbox) r e)))
    where
      built : ClientChl M
      built = exit (with_chl (get_pkt_rq_unsubscribe k.chl_num (chl_handler k)) k)

      left : {d : ClientChl M} → IsKept built d → IsKept (exit k) d
      left h = record { cht = h.cht; num = h.num; active = h.active }
