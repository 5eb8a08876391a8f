-- ===== src/Net/Os.antt =====
-- The operating system's calls on the one socket of a client, which the sockets of src/tas_socket
-- rest on. `S` is the state of everything behind them.
use tas_client_api.Prelude.{ℕ, ◌≡◌, ◌≤◌, Bool, Option, some, List, length}

pub record Os (S : Type 0) : Type 0 where
  -- `CTasConnSocket::connect`, which resolves the name, of a new socket.
  pub connect : List ℕ → ℕ → S → Bool × S
  pub close : S → S
  -- `::select` for writing, whose result is not used, and for reading: whether the time ran out.
  pub select_write : ℕ → S → S
  pub select_read : ℕ → S → Bool × S
  -- `::send` of these bytes: how many were taken, none for -1.
  pub send : List ℕ → S → Option ℕ × S
  -- `::recv` of at most so many bytes: those that came, none for -1.
  pub recv : ℕ → S → Option (List ℕ) × S

-- `::recv` returns at most the bytes asked for.
pub record IsOs {S : Type 0} (os : Os S) : Type 0 where
  pub recv_most : (n : ℕ) (s : S) (got : List ℕ) → (os.recv n s).0 ≡ some got → length got ≤ n
