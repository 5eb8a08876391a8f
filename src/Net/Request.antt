-- ===== src/Net/Request.antt =====
-- The way of a request through CTasPktMailboxSocket::send
-- (src/tas_client/tas_pkt_mailbox_socket.cpp).
use tas_client_api.Prelude.{
  ℕ, zero, suc, ◌+◌, ◌*◌, ◌/◌, ◌%◌, ◌^◌, ◌<◌, ◌≡◌, Bool, true, false, List, [], ◌≤◌, ◌⊎◌, ◌++◌,
  length, Mem, get_bytes,
}
use tas_client_api.Net.Os.{Os}
use tas_client_api.Net.Sending.{IsTransport}
use tas_client_api.Net.Mailbox.{Mailbox}

-- The documented behaviour of `::send` (IsTransport), and that closing transmits nothing.
pub record IsWire {S : Type 0} (os : Os S) (sent : S → List ℕ) : Type 0 where
  pub transport : IsTransport os sent
  pub closes : (s : S) → sent (os.close s) ≡ sent s

-- `p` packets from word `w` of `rq` on, of whole words, below the limits of the integers.
abbrev pub IsFramed : Mem ℕ → ℕ → ℕ → Type 0
IsFramed rq zero w = Unit
IsFramed rq (suc p) w =
    (rq w % 4 ≡ 0)
    × (0 < rq w)
    × (rq w < 2 ^ 31)
    × (w + rq w / 4 < 2 ^ 32)
    × IsFramed rq p (w + rq w / 4)

-- The bytes of these packets.
abbrev pub num_bytes_of : Mem ℕ → ℕ → ℕ → ℕ
num_bytes_of rq zero w = 0
num_bytes_of rq (suc p) w = rq w + num_bytes_of rq p (w + rq w / 4)

-- The bytes `bs` are a first part of each of `p` packets from word `w` on, in their order, each of at
-- least one byte.
abbrev pub Parts : Mem ℕ → ℕ → ℕ → List ℕ → Type 0
Parts rq zero w bs = bs ≡ []
Parts rq (suc p) w bs =
    (n : ℕ) × (rest : List ℕ) × (0 < n)
    × (n ≤ rq w)
    × (bs ≡ get_bytes rq (4 * w) n ++ rest)
    × Parts rq p (w + rq w / 4) rest

module _ {S : Type 0} (os : Os S) (sent : S → List ℕ) (is_wire : IsWire os sent) where
  -- What sending `p` packets from word `w` on leaves, since state `s`: with success, a first part of
  -- each is transmitted; with a failure, of the packets before one of them, and the mailbox is no
  -- longer connected.
  abbrev HasSent : Mem ℕ → ℕ → ℕ → S → Bool × Mailbox S → Type 0
  HasSent rq p w s x =
      (bs : List ℕ) × (sent x.1.sys ≡ sent s ++ bs)
      × (((x.0 ≡ true) × Parts rq p w bs)
          ⊎ ((x.0 ≡ false) × (x.1.connected ≡ false) × (q : ℕ) × (q < p) × Parts rq q w bs))

  -- The same of a whole request of `n` bytes; the first parts are all of them, or fewer.
  abbrev pub IsPut : Mem ℕ → ℕ → ℕ → S → Bool × Mailbox S → Type 0
  IsPut rq p n s x =
      (bs : List ℕ) × (sent x.1.sys ≡ sent s ++ bs)
      × (((x.0 ≡ true) × Parts rq p 0 bs × ((bs ≡ get_bytes rq 0 n) ⊎ (length bs < n)))
          ⊎ ((x.0 ≡ false) × (x.1.connected ≡ false) × (q : ℕ) × (q < p) × Parts rq q 0 bs))

  -- One packet.
  abbrev Puts : Mem ℕ → ℕ → ℕ → Mailbox S → Bool × Mailbox S → Type 0
  Puts rq w n m x =
      ((x.0 ≡ true)
        × (k : ℕ) × (0 < k)
        × (k ≤ n)
        × (sent x.1.sys ≡ sent m.sys ++ get_bytes rq (4 * w) k))
      ⊎ ((x.0 ≡ false) × (x.1.connected ≡ false) × (sent x.1.sys ≡ sent m.sys))
