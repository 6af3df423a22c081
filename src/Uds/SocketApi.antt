-- ===== src/Uds/SocketApi.antt =====
-- The socket that src/uds/transport_uds.c calls: not the repository's code, so a parameter with the
-- documented behaviour of `send` and `recv` on a stream socket.
use libkrossbar.Prelude.{
  ℕ, ◌≤◌, ◌≡◌, Bool, true, false, Option, none, some, List, ◌++◌, length, take,
}

pub record Socket : Type 1 where
  pub Conn : Type 0
  -- the bytes that went out so far, and those that wait to be received, oldest first
  pub sent : Conn → List ℕ
  pub pending : Conn → List ℕ
  -- `none` is the result -1, `some n` the number of bytes taken
  pub send : List ℕ → Conn → Option ℕ × Conn
  -- `recv` of at most so many bytes; with `true` it only looks (`MSG_PEEK`)
  pub recv : Bool → ℕ → Conn → Option (List ℕ) × Conn
  pub send_error :
      (bytes : List ℕ) (c : Conn) → (send bytes c).0 ≡ none → sent (send bytes c).1 ≡ sent c
  pub send_some :
      (bytes : List ℕ) (c : Conn) (n : ℕ)
      → (send bytes c).0 ≡ some n
      → (n ≤ length bytes) × (sent (send bytes c).1 ≡ sent c ++ take n bytes)
  pub recv_error :
      (peek : Bool) (k : ℕ) (c : Conn)
      → (recv peek k c).0 ≡ none
      → pending (recv peek k c).1 ≡ pending c
  pub recv_peek :
      (k : ℕ) (c : Conn) (bytes : List ℕ)
      → (recv true k c).0 ≡ some bytes
      → (pending (recv true k c).1 ≡ pending c) × (bytes ≡ take k (pending c))
  pub recv_some :
      (k : ℕ) (c : Conn) (bytes : List ℕ)
      → (recv false k c).0 ≡ some bytes
      → (length bytes ≤ k) × (pending c ≡ bytes ++ pending (recv false k c).1)
  -- Receiving sends nothing, and sending takes nothing off.
  pub recv_sent : (peek : Bool) (k : ℕ) (c : Conn) → sent (recv peek k c).1 ≡ sent c
  pub send_pending : (bytes : List ℕ) (c : Conn) → pending (send bytes c).1 ≡ pending c
  -- What a look has shown in full, the next `recv` of the same length takes.
  pub recv_seen :
      (k : ℕ) (c : Conn) (bytes : List ℕ)
      → (recv true k c).0 ≡ some bytes
      → length bytes ≡ k
      → (recv false k (recv true k c).1).0 ≡ some bytes

-- The header of a message fits the socket's buffer whole, whenever any of it does.
abbrev pub TakesHeaders : Socket → Type 0
TakesHeaders s =
    (bytes : List ℕ) (c : s.Conn) (n : ℕ)
    → (s.send bytes c).0 ≡ some n
    → length bytes ≤ 5
    → n ≡ length bytes
