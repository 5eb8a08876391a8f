-- ===== src/Client/Spec.antt =====
-- What CTasClientChl promises of its subscription (src/tas_client/tas_client_chl.h): the states of a
-- client and its moves, and the steps of the client that they stand for.
use tas_client_api.Prelude.{
  ℕ, ◌<◌, ◌≡◌, ◌⊎◌, true, false, Option, some, List, Mem, ◌==◌, if◌then◌else◌,
}
use tas_client_api.ErrorInfo.{TasReturn}
use tas_client_api.Chl.Handler.{cht_none, chl_num_max, is_cht}
use tas_client_api.Client.MailboxIf.{MailboxIf}
use tas_client_api.Client.Chl.{ClientChl, session_start, device_connect, target_ping}
use tas_client_api.Client.Channel.{subscribe, unsubscribe, is_rcv}
use tas_client_api.Client.Messages.{send_msg, rcv_msg, device_reset_occurred}

-- A client is not subscribed, or to one channel in one direction.
pub data Channel : Type 0 where
  idle : Channel
  subscribed : ℕ → ℕ → Channel

-- The operations that may change it, and all others.
pub data Op : Type 0 where
  subscribing : ℕ → ℕ → Op
  unsubscribing : Op
  other : Op

-- Only an idle client becomes subscribed, to a channel and in a direction that exist; and a client is
-- idle after `unsubscribe`, whatever becomes of the request.
pub data Move : Op → Channel → Channel → Type 0 where
  stay : (s : Channel) → Move other s s
  refuse : (chl cht : ℕ) (s : Channel) → Move (subscribing chl cht) s s
  join :
      (chl cht : ℕ)
      → chl < chl_num_max
      → is_cht cht ≡ true
      → Move (subscribing chl cht) idle (subscribed chl cht)
  quit : (s : Channel) → Move unsubscribing s idle

module _ {M : Type 0} where
  -- The subscription of a client.
  abbrev pub channel_of : ClientChl M → Channel
  channel_of k = if k.chl_cht == cht_none then idle else subscribed k.chl_num k.chl_cht

  -- The three fields of a client agree.
  abbrev pub IsConsistent : ClientChl M → Type 0
  IsConsistent k =
      ((k.chl_cht ≡ cht_none) × (k.chl_num ≡ chl_num_max) × (k.con.rcv_chl_active ≡ false))
      ⊎ ((is_cht k.chl_cht ≡ true)
          × (k.chl_num < chl_num_max)
          × (k.con.rcv_chl_active ≡ is_rcv k.chl_cht))

module _ {M : Type 0} (mb_if : MailboxIf M) (time_ms : M → ℕ) where
  -- One call of a client, with any arguments, and what it leaves.
  pub data Step : Op → ClientChl M → ClientChl M → Type 0 where
    step_session_start :
        (stack : Mem ℕ) (identifier name pw : List ℕ) (target param : ℕ) (k : ClientChl M)
        → Step other k (session_start mb_if stack identifier name pw target param k).1
    step_device_connect :
        (stack : Mem ℕ) (dco : ℕ) (k : ClientChl M)
        → Step other k (device_connect mb_if stack dco k).1
    step_target_ping :
        (stack : Mem ℕ) (k : ClientChl M) → Step other k (target_ping mb_if stack k).client
    step_subscribe :
        (stack : Mem ℕ) (chl cht chso : ℕ) (prio : Option ℕ) (k : ClientChl M)
        → Step (subscribing chl cht) k (subscribe mb_if stack chl cht chso prio k).client
    step_unsubscribe :
        (fuel : ℕ) (stack : Mem ℕ) (k : ClientChl M) (r : TasReturn × ClientChl M)
        → unsubscribe mb_if time_ms fuel stack k ≡ some r
        → Step unsubscribing k r.1
    step_send_msg :
        (host : Mem ℕ) (msg msg_length init : ℕ) (k : ClientChl M)
        → Step other k (send_msg mb_if host msg msg_length init k).1
    step_rcv_msg :
        (timeout_ms : ℕ) (stack : Mem ℕ) (k : ClientChl M)
        → Step other k (rcv_msg mb_if timeout_ms stack k).client
    step_device_reset_occurred : (k : ClientChl M) → Step other k (device_reset_occurred k).1

  -- Any number of calls.
  pub data Steps : ClientChl M → ClientChl M → Type 0 where
    done : (k : ClientChl M) → Steps k k
    after : (op : Op) (k k' k'' : ClientChl M) → Step op k k' → Steps k' k'' → Steps k k''
