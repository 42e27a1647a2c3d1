-- ===== src/Session/Opening.antt =====
-- Opening a stream keeps the session well formed, and opens no closed identifier again.
use puic.Prelude.{ℕ, ◌+◌, ◌%◌, ◌^◌, ◌≤◌, ◌<◌, ◌≡◌, refl, arith, Bool, true, false}
use puic.Prelude.{Option, none, List, if◌then◌else◌, length}
use puic.Session.{
  Session, Stream, stream, find_stream, is_incoming, is_taken, is_closed, has_key, activate_stream,
  max_available, additional_available,
}
use puic.Prelude.{length-remove_id}
use puic.Session.Maps.{All-map, erase_stream-absent}
use puic.Session.Counting.{All-without}
use puic.Session.Taken.{
  IsValid, IsGone, IsUsed, theirs, Kept, release, raise, release-taken, raise-taken, release-Kept,
  raise-Kept, raise-fewer, activate_stream-closed,
}

-- What the invariant does not read.
pub same-IsValid :
    (side : ℕ) (s : Session) (registered resets : List ℕ) (preset : Option ℕ) (connected : Bool)
    → IsValid side s
    → IsValid side (record s {
      registered = registered;
      resets = resets;
      preset = preset;
      connected = connected;
    })
unfolding is_taken is_closed max_available
same-IsValid side s registered resets preset connected v = record {
  own = v.own;
  parity = v.parity;
  started = v.started;
  unique = v.unique;
  used = v.used;
  final = v.final;
  incoming = v.incoming;
  drains = v.drains;
  keys = v.keys;
  gone = v.gone;
  counted = v.counted;
  few = v.few;
  fewer = v.fewer;
}

-- Only `available` and the largest identifier of the peer change, and no identifier is forgotten.
pub wider-IsValid :
    (side : ℕ) (s : Session) (available : List ℕ) (largest : ℕ)
    → let u = record s { available = available; largest_peer = largest } in
      ((x : ℕ) → is_taken s x ≡ true → is_taken u x ≡ true)
      → Kept s u
      → (s.next_outgoing + largest) % 2 ≡ 1
      → length available ≤ max_available s
      → IsValid side s
      → IsValid side u
unfolding max_available
wider-IsValid side s available largest mono kept p l v =
    let u : Session = record s { available = available; largest_peer = largest } in
    record {
      own = v.own;
      parity = p;
      started = v.started;
      unique = v.unique;
      used =
          All-map (λ (t : Stream). IsUsed s t.id) (λ (t : Stream). IsUsed u t.id)
            (λ t h. ground (arith, h, mono t.id)) s.streams v.used;
      final = v.final;
      incoming = v.incoming;
      drains = v.drains;
      keys = v.keys;
      gone = All-map (IsGone s) (IsGone u) (λ k h. kept k.0 h) s.locally_closed v.gone;
      counted = v.counted;
      few = v.few;
      fewer = l;
    }

pub release-IsValid :
    (side : ℕ) (s : Session) (id : ℕ) → IsValid side s → IsValid side (release s id)
release-IsValid side s id v =
    wider-IsValid side s (release s id).available s.largest_peer (release-taken s id)
      (release-Kept s id) v.parity (omega (arith, length-remove_id id s.available, v.fewer)) v

pub raise-IsValid :
    (side : ℕ) (s : Session) (id : ℕ)
    → is_incoming s id ≡ true
    → s.largest_peer < id
    → id < 2 ^ 32
    → length s.available + additional_available id s.largest_peer ≤ max_available s
    → IsValid side s
    → IsValid side (raise s id)
raise-IsValid side s id i l b h v =
    wider-IsValid side s (raise s id).available id (λ x t. raise-taken s id x l t)
      (raise-Kept s id l) (unfold is_incoming in ground (arith, i, v.parity))
      (unfold max_available in raise-fewer s id v.parity i l b h) v

module _ (side : ℕ) (s : Session) (id : ℕ) (v : IsValid side s)
    (absent : find_stream s.streams id ≡ none) (taken : IsUsed s id)
    (no_key : has_key s.locally_closed id ≡ false)
    (room : (if theirs side id then 1 else 0) + s.num_incoming + s.num_locally_closed
      ≤ s.max_open_incoming + s.num_draining) where
  side_here : is_incoming s id ≡ theirs side id
  unfolding is_incoming
  side_here = ground (arith, v.own)

  pub activate_stream-IsValid : IsValid side (activate_stream s (stream id))
  unfolding activate_stream max_available
  activate_stream-IsValid = record {
    own = v.own;
    parity = v.parity;
    started = v.started;
    unique = rw (erase_stream-absent s.streams id absent) (absent, v.unique);
    used = rw (erase_stream-absent s.streams id absent) (unfold is_taken in (taken, v.used));
    final = rw (erase_stream-absent s.streams id absent) (refl, v.final);
    incoming = rw (erase_stream-absent s.streams id absent) (ground (arith, v.incoming, side_here));
    drains = rw (erase_stream-absent s.streams id absent) (ground (arith, v.drains));
    keys = v.keys;
    gone =
        All-without (IsGone s) (IsGone (activate_stream s (stream id))) s.locally_closed id
          (λ k n h. activate_stream-closed s (stream id) k.0 n h) no_key v.gone;
    counted = v.counted;
    few = ground (arith, room, side_here);
    fewer = v.fewer;
  }
