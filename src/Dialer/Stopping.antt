-- ===== src/Dialer/Stopping.antt =====
-- The dialer stops, by itself when the last connection was deleted or when it is told to: every
-- connection is reported and nothing is left.
use puic.Prelude.{
  ℕ, zero, suc, ◌≡◌, refl, sym, ap, arith, ◌∙◌, true, false, not, List, [], ◌∷◌, ◌++◌, All,
}
use puic.Prelude.{inl, inr, Bool-cases, none, if-cases, length, append_assoc, append-nil}
use mathlib.Core.Path.{subst}
use puic.Dialer.{
  close_front, Dialer, ClientConn, find_conn, erase_id, is_nil, on_closed, close_all, stop,
  delete_conns, on_alarm,
}
use puic.Dialer.{clear_closed}
use puic.Dialer.Sound.{IsLive, IsMap, IsLinked, IsSound, on_closed-IsLinked, same_maps}

erase_id-none : (cs : List ClientConn) (id : ℕ) → find_conn cs id ≡ none → erase_id cs id ≡ cs
erase_id-none [] id h = refl
erase_id-none (c ∷ cs) id h = ground (arith, h, erase_id-none cs id)

All-nil : (bs : List ClientConn) → All (IsLive []) bs → bs ≡ []
All-nil [] h = refl
All-nil (b ∷ bs) h = let e = h.0 in cc

-- What `close_all` has done, for the connections that were in the map.
abbrev AreClosed : Dialer → List ClientConn → Dialer → Type 0
AreClosed d cs e =
    (e.conns ≡ [])
    × (e.blocked_conns ≡ [])
    × (e.disconnected ≡ d.disconnected ++ cs)
    × (e.socket ≡ d.socket)
    × (e.write_blocked ≡ d.write_blocked)

-- Closing the first connection of the map.
close_first :
    (d : Dialer) (c : ClientConn) (cs : List ClientConn)
    → d.conns ≡ c ∷ cs
    → IsLinked d
    → (IsLinked (on_closed d c))
      × ((on_closed d c).conns ≡ cs)
      × ((on_closed d c).disconnected ≡ d.disconnected ++ (c ∷ []))
      × ((on_closed d c).socket ≡ d.socket)
      × ((on_closed d c).write_blocked ≡ d.write_blocked)
close_first d c cs e l =
    let k : IsLive d.conns c = ap (λ xs. find_conn xs c.session_id) e ∙ ground arith in
    let u : IsMap (c ∷ cs) = subst (λ xs. IsMap xs) e l.unique in
    let g : erase_id d.conns c.session_id ≡ cs =
      ap (λ xs. erase_id xs c.session_id) e ∙ ground (arith, erase_id-none cs c.session_id u.0) in
    (
      on_closed-IsLinked c l k,
      unfold on_closed in rw k g,
      unfold on_closed in rw k refl,
      unfold on_closed in rw k refl,
      unfold on_closed in rw k refl,
    )

close_all_step :
    (n : ℕ) (d : Dialer) (c : ClientConn) (cs : List ClientConn)
    → d.conns ≡ c ∷ cs
    → close_all (suc n) d ≡ close_all n (on_closed d c)
unfolding close_all
close_all_step n d c cs e = unfold close_front in ap (λ xs. close_all n (close_front d xs)) e

close_all-AreClosed :
    (n : ℕ) (d : Dialer) (cs : List ClientConn)
    → d.conns ≡ cs
    → length cs ≡ n
    → IsLinked d
    → AreClosed d cs (close_all n d)
unfolding close_all
close_all-AreClosed zero d [] e h l =
    let b : All (IsLive []) d.blocked_conns =
      subst (λ xs. All (IsLive xs) d.blocked_conns) e l.blocked in
    (e, All-nil d.blocked_conns b, sym (append-nil d.disconnected), refl, refl)
close_all-AreClosed zero d (c ∷ cs) e h l = absurd (omega (arith, h))
close_all-AreClosed (suc n) d [] e h l = absurd (omega (arith, h))
close_all-AreClosed (suc n) d (c ∷ cs) e h l =
    let (k, g, o, p, q) = close_first d c cs e l in
    let (w, x, y, z, t) = close_all-AreClosed n (on_closed d c) cs g (omega (arith, h)) k in
    rw (close_all_step n d c cs e)
      (w, x, y ∙ ap (λ xs. xs ++ cs) o ∙ append_assoc d.disconnected (c ∷ []) cs, z ∙ p, t ∙ q)

-- Stop closes the session of every connection, in order, reports each once, and leaves the dialer
-- without connections, with nothing to delete or to wake.
pub stop_lem :
    {d : Dialer}
    → IsSound d
    → (d.crypto_config ≡ true)
    → ((stop d).crypto_config ≡ false)
      × ((stop d).socket ≡ false)
      × ((stop d).write_blocked ≡ true)
      × ((stop d).conns ≡ [])
      × ((stop d).blocked_conns ≡ [])
      × ((stop d).closed_conns ≡ [])
      × ((stop d).disconnected ≡ d.disconnected ++ d.conns)
unfolding stop
stop_lem {d} s o =
    let e : Dialer = record d {
      socket = false;
      write_blocked = true;
      delete_conns_alarm = false;
    } in
    let (w, x, y, z, t) =
      close_all-AreClosed (length d.conns) e d.conns refl refl (same_maps s.linked refl refl) in
    if-cases
      (λ (r : Dialer).
        (r.crypto_config ≡ false)
        × (r.socket ≡ false)
        × (r.write_blocked ≡ true)
        × (r.conns ≡ [])
        × (r.blocked_conns ≡ [])
        × (r.closed_conns ≡ [])
        × (r.disconnected ≡ d.disconnected ++ d.conns))
      (not d.crypto_config) (λ u. absurd (ground (arith, u, o))) (λ u. (refl, z, t, w, x, refl, y))

pub stop-IsSound : {d : Dialer} → IsSound d → IsSound (stop d)
stop-IsSound {d} s = elim (Bool-cases d.crypto_config) [
  | inl t ↦
      let (o, a, b, w, x, y, z) = stop_lem s t in
      record {
        linked = record { live = rw w tt; unique = rw w tt; blocked = rw x tt };
        alarm = rw y refl;
        off = rw o (rw w (rw x (rw y refl)));
      }
  | inr f ↦
      unfold stop in
      if-cases IsSound (not d.crypto_config) (λ u. s) (λ u. absurd (ground (arith, u, f)))
]

clear-IsSound : {d : Dialer} → IsSound d → IsSound (clear_closed d)
clear-IsSound {d} s = record {
  linked = same_maps s.linked refl refl;
  alarm = refl;
  off = ground (arith, s.off);
}

pub on_alarm-IsSound : {d : Dialer} → IsSound d → IsSound (on_alarm d)
unfolding on_alarm delete_conns
on_alarm-IsSound {d} s =
    let e : Dialer = clear_closed (record d { delete_conns_alarm = false }) in
    let c : IsSound e = record {
      linked = same_maps s.linked refl refl;
      alarm = refl;
      off = ground (arith, s.off);
    } in
    if-cases IsSound (is_nil d.conns) (λ t. stop-IsSound c) (λ t. c)
