-- ===== src/Udp/World.antt =====
-- The sender with what libuv holds: requests on their way, requests of a socket that was closed, and
-- requests that are gone.
use puic.Prelude.{ℕ, zero, suc, ◌+◌, ◌≤◌, ◌≡◌, refl, ap, arith, Bool, true, false}
use puic.Prelude.{Option, none, some, List, [], ◌∷◌, ◌++◌, length, length-append}
use puic.Udp.{Sender, max_flying_messages, requests, sender, write_packet, on_uv_send}
use puic.Udp.{open_socket, close_socket}

pub record World : Type 0 where
  pub sender : Sender
  pub flying : List ℕ
  pub closing : List ℕ
  pub gone : List ℕ

-- After uv_udp_send: an accepted request flies, a refused one is in nobody's hands.
unfoldable pub hand_over : World → Bool → Sender → Option ℕ → World
hand_over w accepted s none = record w { sender = s }
hand_over w true s (some req) = record w { sender = s; flying = req ∷ w.flying }
hand_over w false s (some req) = record w { sender = s; gone = req ∷ w.gone }

unfoldable pub write : World → ℕ → Bool → World
write w buf_len accepted =
    let (_, s, req) = write_packet w.sender buf_len accepted in hand_over w accepted s req

-- The request between `before` and `after` has been sent.
unfoldable pub complete : World → List ℕ → ℕ → List ℕ → World
complete w before req after = record w {
  sender = (on_uv_send w.sender req false).1;
  flying = before ++ after;
}

unfoldable pub complete_closing : World → List ℕ → ℕ → List ℕ → World
complete_closing w before req after = record w {
  sender = (on_uv_send w.sender req true).1;
  closing = before ++ after;
  gone = req ∷ w.gone;
}

-- What happens while the socket is open.
pub data Step : World → World → Type 0 where
  send : (w : World) (buf_len : ℕ) (accepted : Bool) → Step w (write w buf_len accepted)
  sent :
      (w : World) (before : List ℕ) (req : ℕ) (after : List ℕ)
      → w.flying ≡ before ++ (req ∷ after)
      → Step w (complete w before req after)
  freed :
      (w : World) (before : List ℕ) (req : ℕ) (after : List ℕ)
      → w.closing ≡ before ++ (req ∷ after)
      → Step w (complete_closing w before req after)

-- The client's stop and start.
unfoldable pub stop_world : World → World
stop_world w = record {
  sender = close_socket w.sender;
  flying = [];
  closing = w.flying ++ w.closing;
  gone = w.gone;
}

unfoldable pub start_world : World → World
start_world w = record w { sender = open_socket w.sender }

-- The whole life of a sender: sockets are closed and opened between.
pub data Life : World → World → Type 0 where
  step : {v w : World} → Step v w → Life v w
  stop : (w : World) → Life w (stop_world w)
  start : (w : World) → Life w (start_world w)

pub data Run (v : World) : World → Type 0 where
  here : Run v v
  next : {w x : World} → Run v w → Step w x → Run v x

pub data Lives (v : World) : World → Type 0 where
  born : Lives v v
  lives : {w x : World} → Lives v w → Life w x → Lives v x

-- Requests that the pool will not see again.
abbrev pub lost : World → ℕ
lost w = length w.closing + length w.gone

-- As many requests as the pool has.
unfoldable pub IsValid : World → Type 0
IsValid w = length w.sender.avail_send_reqs + length w.flying + lost w ≡ max_flying_messages

unfoldable pub fresh : World
fresh = record { sender = open_socket sender; flying = []; closing = []; gone = [] }

length-requests : (n : ℕ) → length (requests n) ≡ n
unfolding requests
length-requests zero = refl
length-requests (suc n) = omega (arith, length-requests n)

pub fresh-IsValid : IsValid fresh
unfolding fresh IsValid open_socket sender
fresh-IsValid = omega (arith, length-requests max_flying_messages)

-- The sender counts its requests, and is blocked only while some are missing.
pub write-IsValid :
    (w : World) (n : ℕ) (accepted : Bool)
    → IsValid w
    → IsValid (write w n accepted) × (lost w ≤ lost (write w n accepted))
unfolding IsValid write hand_over write_packet
write-IsValid w n accepted v = ground arith

pub complete-IsValid :
    (w : World) (before : List ℕ) (req : ℕ) (after : List ℕ)
    → w.flying ≡ before ++ (req ∷ after)
    → IsValid w
    → IsValid (complete w before req after) × (lost w ≤ lost (complete w before req after))
unfolding IsValid complete on_uv_send
complete-IsValid w before req after e v =
    ground (arith, ap length e, length-append before (req ∷ after), length-append before after)

complete_closing-IsValid :
    (w : World) (before : List ℕ) (req : ℕ) (after : List ℕ)
    → w.closing ≡ before ++ (req ∷ after)
    → IsValid w
    → IsValid (complete_closing w before req after)
      × (lost w ≤ lost (complete_closing w before req after))
unfolding IsValid complete_closing on_uv_send
complete_closing-IsValid w before req after e v =
    ground (arith, ap length e, length-append before (req ∷ after), length-append before after)

-- A step keeps the requests together, and brings no lost one back.
pub Step-IsValid : {v w : World} → Step v w → IsValid v → IsValid w × (lost v ≤ lost w)
Step-IsValid (send w n a) v = write-IsValid w n a v
Step-IsValid (sent w before req after e) v = complete-IsValid w before req after e v
Step-IsValid (freed w before req after e) v = complete_closing-IsValid w before req after e v

Life-IsValid : {v w : World} → Life v w → IsValid v → IsValid w × (lost v ≤ lost w)
Life-IsValid (step s) v = Step-IsValid s v
Life-IsValid (stop w) v =
    unfold IsValid stop_world close_socket in omega (arith, length-append w.flying w.closing)
Life-IsValid (start w) v = unfold IsValid start_world open_socket in omega arith

-- Over a whole life, sockets closed and opened again included, the numbers of requests on the stack, on
-- their way and lost add up to the size of the pool, and the number lost never falls.
pub Lives-IsValid : {v w : World} → IsValid v → Lives v w → IsValid w × (lost v ≤ lost w)
Lives-IsValid v born = (v, omega arith)
Lives-IsValid v (lives r l) =
    let (vw, a) = Lives-IsValid v r in let (vx, b) = Life-IsValid l vw in (vx, omega arith)
