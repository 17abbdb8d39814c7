-- ===== src/Client/Events.antt =====
-- Each connection of a slot is reported once, and its end once.
use highp_mmorpg.Prelude.{ℕ, ◌+◌, ◌≡◌, true, List, [], ◌∷◌, ◌++◌, some, arith, if◌then◌else◌}
use highp_mmorpg.Client.{
  Client, ClientEvent, connected, disconnected, recv_posted, recv_post_failed, send_posted,
  send_post_failed, emit_connected_event, mark_connection_established, emit_disconnected_event,
  close,
}

-- What the server does with a slot: it gives it a socket, marks it connected, or closes it.
pub data Use : Type 0 where
  opens : ℕ → Use
  marks closes : Use

pub use_slot : Client → Use → Client × List ClientEvent
use_slot c (opens s) = (record c { socket = some s }, [])
use_slot c marks = mark_connection_established c
use_slot c closes = close c

pub use_all : Client → List Use → Client × List ClientEvent
use_all c [] = (c, [])
use_all c (u ∷ us) =
    let (c', events) = use_slot c u in let (c'', later) = use_all c' us in (c'', events ++ later)

abbrev pub connects : List ClientEvent → ℕ
connects [] = 0
connects (connected ∷ es) = 1 + connects es
connects (disconnected ∷ es) = connects es
connects (recv_posted ∷ es) = connects es
connects (recv_post_failed ∷ es) = connects es
connects (send_posted ∷ es) = connects es
connects (send_post_failed ∷ es) = connects es

abbrev pub disconnects : List ClientEvent → ℕ
disconnects [] = 0
disconnects (disconnected ∷ es) = 1 + disconnects es
disconnects (connected ∷ es) = disconnects es
disconnects (recv_posted ∷ es) = disconnects es
disconnects (recv_post_failed ∷ es) = disconnects es
disconnects (send_posted ∷ es) = disconnects es
disconnects (send_post_failed ∷ es) = disconnects es

-- 1 while a connection of the slot is reported and its end is not.
abbrev pub open_count : Client → ℕ
open_count c = if c.connection_event_counted then 1 else 0

pub connects-append : (es fs : List ClientEvent) → connects (es ++ fs) ≡ connects es + connects fs
connects-append [] fs = omega arith
connects-append (connected ∷ es) fs = omega (arith, connects-append es fs)
connects-append (disconnected ∷ es) fs = connects-append es fs
connects-append (recv_posted ∷ es) fs = connects-append es fs
connects-append (recv_post_failed ∷ es) fs = connects-append es fs
connects-append (send_posted ∷ es) fs = connects-append es fs
connects-append (send_post_failed ∷ es) fs = connects-append es fs

pub disconnects-append :
    (es fs : List ClientEvent) → disconnects (es ++ fs) ≡ disconnects es + disconnects fs
disconnects-append [] fs = omega arith
disconnects-append (disconnected ∷ es) fs = omega (arith, disconnects-append es fs)
disconnects-append (connected ∷ es) fs = disconnects-append es fs
disconnects-append (recv_posted ∷ es) fs = disconnects-append es fs
disconnects-append (recv_post_failed ∷ es) fs = disconnects-append es fs
disconnects-append (send_posted ∷ es) fs = disconnects-append es fs
disconnects-append (send_post_failed ∷ es) fs = disconnects-append es fs

-- A counted connection is an established one.
pub record IsCounted (c : Client) : Type 0 where
  pub counted : c.connection_event_counted ≡ true → c.connection_established ≡ true

use_slot_balance :
    (c : Client) (u : Use)
    → IsCounted c
    → let (c', es) = use_slot c u in
      (open_count c + connects es ≡ open_count c' + disconnects es) × IsCounted c'
unfolding use_slot mark_connection_established close emit_disconnected_event emit_connected_event
use_slot_balance c (opens s) v = (omega arith, record { counted = v.counted })
use_slot_balance c marks v = ground (arith, v.counted)
use_slot_balance c closes v = ground (arith, v.counted)

-- Over any use of a slot, from one whose counted connection is established, the reports of
-- connections and of their ends balance: as many connections are reported as ends, but for one that
-- is open before or after.
pub use_all_balance :
    (us : List Use) (c : Client)
    → IsCounted c
    → let (c', es) = use_all c us in
      (open_count c + connects es ≡ open_count c' + disconnects es) × IsCounted c'
unfolding use_all
use_all_balance [] c v = (omega arith, v)
use_all_balance (u ∷ us) c v =
    let here = use_slot_balance c u v in
    let later = use_all_balance us (use_slot c u).0 here.1 in
    let es = (use_slot c u).1 in
    let fs = (use_all (use_slot c u).0 us).1 in
    (omega (arith, here.0, later.0, connects-append es fs, disconnects-append es fs), later.1)
