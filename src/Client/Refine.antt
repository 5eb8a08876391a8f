-- ===== src/Client/Refine.antt =====
-- CTasClientChl as an implementation of its states and moves (src/tas_client/tas_client_chl.cpp).
use tas_client_api.Prelude.{
  ℕ, ◌<◌, ◌≡◌, refl, sym, ap, ap₂, subst, ◌∙◌, ◌⊎◌, inl, inr, arith, true, false, Mem, ◌==◌,
  if◌then◌else◌,
}
use tas_client_api.Chl.Handler.{Chl, cht_none, chl_num_max, is_cht}
use tas_client_api.Client.MailboxIf.{MailboxIf}
use tas_client_api.Client.Con.{Con}
use tas_client_api.Client.Chl.{
  ClientChl, Subscription, construct, session_start, device_connect, target_ping,
}
use tas_client_api.Client.Messages.{send_msg, rcv_msg, device_reset_occurred}
use tas_client_api.Client.Channel.{subscribe, is_rcv, exit}
use tas_client_api.Client.Keeps.{IsKept, device_reset_occurred-Kept, send_msg-Kept, rcv_msg-Kept}
use tas_client_api.Client.Calls.{device_connect-Kept, session_start-Kept, target_ping-Kept}
use tas_client_api.Client.Subscribing.{IsEntered, subscribe-Tried, unsubscribe-Left}
use tas_client_api.Client.Spec.{
  idle, subscribed, Op, subscribing, unsubscribing, other, Move, stay, refuse, join, quit,
  channel_of, IsConsistent, Step, Steps, done, after, step_session_start, step_device_connect,
  step_target_ping, step_subscribe, step_unsubscribe, step_send_msg, step_rcv_msg,
  step_device_reset_occurred,
}

-- A move of the promise, and a client whose fields agree.
abbrev pub IsRefined : {M : Type 0} → Op → ClientChl M → ClientChl M → Type 0
IsRefined op k d = Move op (channel_of k) (channel_of d) × IsConsistent d

module _ {M : Type 0} where
  kept-channel : (k d : ClientChl M) → IsKept k d → channel_of d ≡ channel_of k
  kept-channel k d h =
      ap₂ (λ cht. λ num. if cht == cht_none then idle else subscribed num cht) h.cht h.num

  kept-Consistent : (k d : ClientChl M) → IsKept k d → IsConsistent k → IsConsistent d
  kept-Consistent k d h (inl (a, b, c)) = inl (h.cht ∙ a, h.num ∙ b, h.active ∙ c)
  kept-Consistent k d h (inr (a, b, c)) = inr (
    ap is_cht h.cht ∙ a,
    subst (λ n. n < chl_num_max) (sym h.num) b,
    h.active ∙ c ∙ ap is_rcv (sym h.cht),
  )

  kept-Refined : (k d : ClientChl M) → IsConsistent k → IsKept k d → IsRefined other k d
  kept-Refined k d ok h = (
    subst (λ s. Move other (channel_of k) s) (sym (kept-channel k d h)) (stay (channel_of k)),
    kept-Consistent k d h ok,
  )

  -- A client without a channel.
  idle-channel : (k : ClientChl M) → k.chl_cht ≡ cht_none → channel_of k ≡ idle
  idle-channel k h = ground arith

  refused-Refined :
      (chl cht : ℕ) (k d : ClientChl M)
      → IsConsistent k
      → IsKept k d
      → IsRefined (subscribing chl cht) k d
  refused-Refined chl cht k d ok h = (
    subst (λ x. Move (subscribing chl cht) (channel_of k) x) (sym (kept-channel k d h))
        (refuse chl cht (channel_of k)),
    kept-Consistent k d h ok,
  )

  tried-Refined :
      (chl cht : ℕ) (k : ClientChl M) (s : Subscription M)
      → IsConsistent k
      → IsKept k s.client
        ⊎ ((k.chl_cht ≡ cht_none)
            × (IsKept (record k { chl_num = chl_num_max }) s.client
                ⊎ ((chl < chl_num_max) × (is_cht cht ≡ true) × IsEntered chl cht s.client)))
      → IsRefined (subscribing chl cht) k s.client
  tried-Refined chl cht k s ok (inl h) = refused-Refined chl cht k s.client ok h
  tried-Refined chl cht k s (inl (a, b, c)) (inr (none_yet, inl h)) =
      refused-Refined chl cht k s.client (inl (a, b, c))
        (record { cht = h.cht; num = h.num ∙ sym b; active = h.active })
  tried-Refined chl cht k s (inr (a, b, c)) (inr (none_yet, inl h)) = absurd (ground arith)
  tried-Refined chl cht k s ok (inr (none_yet, inr (low, known, h))) = (
    subst (λ x. Move (subscribing chl cht) x (channel_of s.client)) (sym (idle-channel k none_yet))
        (subst (λ x. Move (subscribing chl cht) idle x) (sym entered) (join chl cht low known)),
    inr (
      ap is_cht h.cht ∙ known,
      subst (λ n. n < chl_num_max) (sym h.num) low,
      h.active ∙ ap is_rcv (sym h.cht),
    ),
  )
    where
      some_cht : (cht == cht_none) ≡ false
      some_cht = ground arith

      entered : channel_of s.client ≡ subscribed chl cht
      entered =
          ap₂ (λ x. λ num. if x == cht_none then idle else subscribed num x) h.cht h.num
          ∙ ap (λ b. if b then idle else subscribed chl cht) some_cht

  left-Refined :
      (k d : ClientChl M)
      → IsConsistent k
      → ((k.chl_cht ≡ cht_none) × IsKept k d) ⊎ IsKept (exit k) d
      → IsRefined unsubscribing k d
  left-Refined k d ok (inl (none_yet, h)) = (
    subst (λ x. Move unsubscribing (channel_of k) x)
        (sym (kept-channel k d h ∙ idle-channel k none_yet)) (quit (channel_of k)),
    kept-Consistent k d h ok,
  )
  left-Refined k d ok (inr h) = (
    subst (λ x. Move unsubscribing (channel_of k) x) (sym (idle-channel d h.cht))
        (quit (channel_of k)),
    inl (h.cht, h.num, h.active),
  )

module _ {M : Type 0} (mb_if : MailboxIf M) (time_ms : M → ℕ) where
  -- Every call of a client whose fields agree is a move of the promise, whatever the mailbox does and
  -- the arguments are: `subscribe` leaves an idle client idle or subscribed to the channel and in the
  -- direction asked for, which exist, and another client as it is; after `unsubscribe`, when it has
  -- returned, the client is idle; all other calls leave the subscription. The fields agree again.
  pub step-IsRefined :
      (op : Op) (k d : ClientChl M) → IsConsistent k → Step mb_if time_ms op k d → IsRefined op k d
  step-IsRefined _ _ _ ok (step_session_start stack identifier name pw target param k) =
      kept-Refined k (session_start mb_if stack identifier name pw target param k).1 ok
        (session_start-Kept mb_if stack identifier name pw target param k)
  step-IsRefined _ _ _ ok (step_device_connect stack dco k) =
      kept-Refined k (device_connect mb_if stack dco k).1 ok (device_connect-Kept mb_if stack dco k)
  step-IsRefined _ _ _ ok (step_target_ping stack k) =
      kept-Refined k (target_ping mb_if stack k).client ok (target_ping-Kept mb_if stack k)
  step-IsRefined _ _ _ ok (step_subscribe stack chl cht chso prio k) =
      tried-Refined chl cht k (subscribe mb_if stack chl cht chso prio k) ok
        (subscribe-Tried mb_if stack chl cht chso prio k)
  step-IsRefined _ _ _ ok (step_unsubscribe fuel stack k r e) =
      left-Refined k r.1 ok (unsubscribe-Left mb_if time_ms fuel stack k r e)
  step-IsRefined _ _ _ ok (step_send_msg host msg msg_length init k) =
      kept-Refined k (send_msg mb_if host msg msg_length init k).1 ok
        (send_msg-Kept mb_if host msg msg_length init k)
  step-IsRefined _ _ _ ok (step_rcv_msg timeout_ms stack k) =
      kept-Refined k (rcv_msg mb_if timeout_ms stack k).client ok
        (rcv_msg-Kept mb_if timeout_ms stack k)
  step-IsRefined _ _ _ ok (step_device_reset_occurred k) =
      kept-Refined k (device_reset_occurred k).1 ok (device_reset_occurred-Kept k)

  steps-Consistent : (k d : ClientChl M) → IsConsistent k → Steps mb_if time_ms k d → IsConsistent d
  steps-Consistent _ _ ok (done k) = ok
  steps-Consistent _ _ ok (after op k k' d step rest) =
      steps-Consistent k' d (step-IsRefined op k k' ok step).1 rest

  -- After any number of calls of a new client, on which no receive channel is active, the three fields
  -- of its subscription agree: no channel, no direction and no active receive channel; or a channel
  -- below 32, a direction that exists, and an active receive channel exactly for the directions that
  -- receive.
  pub reachable-IsConsistent :
      (con : Con M) (tph_chl : Chl) (stack : Mem ℕ) (d : ClientChl M)
      → con.rcv_chl_active ≡ false
      → Steps mb_if time_ms (construct mb_if stack con tph_chl) d
      → IsConsistent d
  unfolding construct
  reachable-IsConsistent con tph_chl stack d inactive steps =
      steps-Consistent (construct mb_if stack con tph_chl) d (inl (refl, refl, inactive)) steps
