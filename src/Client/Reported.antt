-- ===== src/Client/Reported.antt =====
-- What CTasClientRwBase::execute_trans and CTasClientRw::session_start report
-- (src/tas_client/tas_client_rw_base.cpp and tas_client_rw.h).
use tas_client_api.Prelude.{
  ℕ, ◌+◌, ◌/◌, ◌≡◌, refl, ap, ◌∙◌, subst, ◌⊎◌, inl, inr, arith, Bool, true, false, Option, none,
  some, some-inj, none-ne, List, Mem, if-lem,
}
use tas_client_api.Base.Errors.{err_server_connection}
use tas_client_api.ErrorInfo.{err_fn_usage, err_fn_param, TasReturn, is_err, ErrorInfo, no_error}
use tas_client_api.Base.Ping.{client_rw}
use tas_client_api.Rw.Trans.{Trans}
use tas_client_api.Rw.State
use tas_client_api.Rw.State.{Rw, rw_start}
use tas_client_api.Rw.Start.{IsPrepared, start-IsPrepared}
use tas_client_api.Rw.Request.{rw_set_trans, rw_get_rq}
use tas_client_api.Rw.Response.{SetRsp, rw_set_rsp}
use tas_client_api.Client.MailboxIf.{Reply, MailboxIf}
use tas_client_api.Client.Con.{Con}
use tas_client_api.Client.Con
use tas_client_api.Client.Session.{IsStarted, session_start-IsStarted}
use tas_client_api.Client.Rw.{
  ClientRw, Executed, with_rw, shared, received, after_set_rsp, execute_rq, after_set_trans,
  with_session, execute_trans,
}
use tas_client_api.Client.Access.{after_session_start, session_start}

-- No request is made, since there is no session, or the transactions are refused.
abbrev IsRefused : {M : Type 0} → ClientRw M → Mem ℕ → List Trans → Executed M → Type 0
IsRefused k host ts x =
    (x.client.con.mailbox ≡ k.con.mailbox)
    × (x.host ≡ host)
    × (((k.tph_rw ≡ none) × (x.ret ≡ err_fn_usage))
        ⊎ ((r0 : Rw) × (r : Rw) × (k.tph_rw ≡ some r0)
            × (rw_set_trans host (shared r0 k) ts ≡ some (false, r))
            × (x.ret ≡ err_fn_param)))

-- What the mailbox answers to the request of the handler `r`.
abbrev answer_to : {M : Type 0} → MailboxIf M → ClientRw M → Rw → Reply M
answer_to mb_if k r =
    mb_if.execute (rw_get_rq r).0.rq k.rsp_buf (rw_get_rq r).0.num_pl2_pkt k.con.mailbox

-- What is reported of this answer: that the mailbox failed, the error of the response, or none.
abbrev Reports : {M : Type 0} → Mem ℕ → Rw → Reply M → Executed M → Type 0
Reports host r a x =
    ((a.ret ≡ false) × (x.client.con.ei ≡ err_server_connection) × (x.host ≡ host))
    ⊎ ((a.ret ≡ true)
        × (s : SetRsp) × (rw_set_rsp (a.num_bytes / 4 + 2) a.rsp a.num_bytes (rw_get_rq r).1 host
            ≡ some s)
        × (x.host ≡ s.host)
        × (((is_err s.ret ≡ true) × (x.client.con.ei ≡ s.rw.ei))
            ⊎ ((is_err s.ret ≡ false) × (x.client.con.ei ≡ no_error))))

-- The mailbox is given the request, and the code returned is the one noted.
abbrev IsExecuted : {M : Type 0} → MailboxIf M → ClientRw M → Mem ℕ → Rw → Executed M → Type 0
IsExecuted mb_if k host r x =
    (x.ret ≡ x.client.con.ei.tas_err)
    × (x.client.con.mailbox ≡ (answer_to mb_if k r).mailbox)
    × Reports host r (answer_to mb_if k r) x

abbrev pub IsReported :
    {M : Type 0} → MailboxIf M → ClientRw M → Mem ℕ → List Trans → Executed M → Type 0
IsReported mb_if k host ts x =
    IsRefused k host ts x
    ⊎ ((r0 : Rw) × (r : Rw) × (k.tph_rw ≡ some r0)
        × (rw_set_trans host (shared r0 k) ts ≡ some (true, r))
        × IsExecuted mb_if k host r x)

-- Either an error is returned and the handler stays; or none is noted, and there is a handler that
-- is prepared once it has started.
abbrev pub IsReady : {M : Type 0} → ClientRw M → TasReturn × ClientRw M → Type 0
IsReady k (ret, d) =
    ((is_err ret ≡ true) × (d.tph_rw ≡ k.tph_rw))
    ⊎ ((d.con.ei ≡ no_error)
        × (r : Rw) × (d.tph_rw ≡ some r)
        × IsPrepared (rw_start r) d.con.tphsc.base.con_info)

module _ {M : Type 0} (mb_if : MailboxIf M) where
  after_set_rsp-IsExecuted :
      (k d : ClientRw M) (host : Mem ℕ) (r : Rw) (o : Option SetRsp) (x : Executed M)
      → d.con.mailbox ≡ (answer_to mb_if k r).mailbox
      → (answer_to mb_if k r).ret ≡ true
      → rw_set_rsp
          ((answer_to mb_if k r).num_bytes / 4 + 2)
          (answer_to mb_if k r).rsp
          (answer_to mb_if k r).num_bytes
          (rw_get_rq r).1
          host
        ≡ o
      → after_set_rsp d o ≡ some x
      → IsExecuted mb_if k host r x
  after_set_rsp-IsExecuted k d host r none x same ok parsed = λ e. absurd (none-ne e)
  after_set_rsp-IsExecuted k d host r (some s) x same ok parsed =
      if-lem (λ (o : Option (Executed M)). o ≡ some x → IsExecuted mb_if k host r x) (is_err s.ret)
        (λ bad. λ e.
          subst (IsExecuted mb_if k host r) (some-inj e)
            (refl, same, inr (ok, s, parsed, refl, inl (bad, refl))))
        (λ good. λ e.
          subst (IsExecuted mb_if k host r) (some-inj e)
            (refl, same, inr (ok, s, parsed, refl, inr (good, refl))))

  execute_rq-IsExecuted :
      (k : ClientRw M) (host : Mem ℕ) (r : Rw) (x : Executed M)
      → execute_rq mb_if host r (with_rw r k) ≡ some x
      → IsExecuted mb_if k host r x
  unfolding execute_rq
  execute_rq-IsExecuted k host r x =
      if-lem (λ (o : Option (Executed M)). o ≡ some x → IsExecuted mb_if k host r x) a.ret
        (λ ok. λ e. after_set_rsp-IsExecuted k (received a built) host r _ x refl ok refl e)
        (λ failed. λ e.
          subst (IsExecuted mb_if k host r) (some-inj e) (refl, refl, inl (failed, refl, refl)))
    where
      built : ClientRw M
      built = with_rw (rw_get_rq r).1 k

      a : Reply M
      a = answer_to mb_if k r

  after_set_trans-IsReported :
      (k : ClientRw M) (host : Mem ℕ) (ts : List Trans) (r0 : Rw) (o : Option (Bool × Rw))
      (x : Executed M)
      → k.tph_rw ≡ some r0
      → rw_set_trans host (shared r0 k) ts ≡ o
      → after_set_trans mb_if host ts k o ≡ some x
      → IsReported mb_if k host ts x
  after_set_trans-IsReported k host ts r0 none x there set e = absurd (none-ne e)
  after_set_trans-IsReported k host ts r0 (some (false, r)) x there set e =
      subst (IsReported mb_if k host ts) (some-inj e)
        (inl (refl, refl, inr (r0, r, there, set, refl)))
  after_set_trans-IsReported k host ts r0 (some (true, r)) x there set e =
      inr (r0, r, there, set, execute_rq-IsExecuted k host r x e)

  with_session-IsReported :
      (k : ClientRw M) (host : Mem ℕ) (ts : List Trans) (o : Option Rw) (x : Executed M)
      → k.tph_rw ≡ o
      → with_session mb_if host ts k o ≡ some x
      → IsReported mb_if k host ts x
  with_session-IsReported k host ts none x there e =
      subst (IsReported mb_if k host ts) (some-inj e) (inl (refl, refl, inl (there, refl)))
  with_session-IsReported k host ts (some r) x there e =
      after_set_trans-IsReported k host ts r (rw_set_trans host (shared r k) ts) x there refl e

  -- When `execute_trans` returns, then either there is no session, and the usage error is returned;
  -- or `rw_set_trans` refuses the transactions, and the parameter error is returned: in both cases
  -- the mailbox and the caller's memory are as they were. Or else the mailbox is given the request
  -- of `rw_get_rq`, and the code returned is the one noted: if the mailbox fails, that of the lost
  -- connection, with the caller's memory as it was; the error that `rw_set_rsp` notes, if it returns
  -- one for the response; and none otherwise.
  pub execute_trans-IsReported :
      (host : Mem ℕ) (ts : List Trans) (k : ClientRw M) (x : Executed M)
      → execute_trans mb_if host ts k ≡ some x
      → IsReported mb_if k host ts x
  unfolding execute_trans
  execute_trans-IsReported host ts k x e = with_session-IsReported k host ts k.tph_rw x refl e

  after-IsReady :
      (fresh : Rw) (k : ClientRw M) (x : TasReturn × Con M)
      → IsStarted k.con x
      → IsReady k (after_session_start mb_if fresh k x)
  unfolding State.construct
  after-IsReady fresh k (ret, con) (e, inl (err, same), active) =
      if-lem (λ (d : ClientRw M). IsReady k (ret, d)) (is_err ret) (λ h. inl (h, refl))
        (λ h. absurd (ground arith))
  after-IsReady fresh k (ret, con) (e, inr (ok, before, now, agreed), active) =
      if-lem (λ (d : ClientRw M). IsReady k (ret, d)) (is_err ret)
        (λ h. absurd (ground (arith, bad, h)))
        (λ h. inr (
          ok,
          State.construct (record fresh { ei = con.ei }) con.tphsc.base.con_info,
          refl,
          start-IsPrepared (record fresh { ei = con.ei }) con.tphsc.base.con_info agreed,
        ))
    where
      bad : is_err ret ≡ false
      bad = ap is_err e ∙ ap (λ (ei : ErrorInfo). is_err ei.tas_err) ok

  -- After `session_start` of a client for reading and writing either an error is returned, and the
  -- handler is as it was; or no error is noted, and there is a handler that, once it has started, has
  -- the agreed connection information, packets and buffers of at least 128 bytes, blocks of 8 to 1024
  -- bytes, no transaction, and arrays of as many transactions as the server allows, which may be
  -- none; whatever the server answered and the memory held.
  pub session_start-IsReady :
      (stack : Mem ℕ) (fresh : Rw) (identifier name pw : List ℕ) (k : ClientRw M)
      → IsReady k (session_start mb_if stack fresh identifier name pw k)
  unfolding session_start
  session_start-IsReady stack fresh identifier name pw k =
      after-IsReady fresh k (Con.session_start mb_if stack client_rw identifier name pw 0 0 k.con)
        (session_start-IsStarted mb_if stack client_rw identifier name pw 0 0 k.con)
