-- ===== src/Dialer/Sound.antt =====
-- The maps of the dialer fit together: it holds no pointer to a connection that was freed.
use puic.Prelude.{
  ℕ, ◌≡◌, refl, sym, ap, arith, ◌∙◌, Bool, true, false, not, ◌&&◌, ◌||◌, ◌==◌, List, [], ◌∷◌, All,
}
use puic.Prelude.{Option, none, some, inl, inr, Bool-cases, if-cases}
use puic.Dialer.{
  DialerResult, is_success, ensure_started, start, create_conn, Dialer, ClientConn, find_conn,
  erase_id, erase_conn, insert_conn, is_nil, on_closed,
}
use puic.Dialer.{on_conn_write_blocked, add_conn}

-- The map has this connection at its identifier.
abbrev pub IsLive : List ClientConn → ClientConn → Type 0
IsLive conns c = find_conn conns c.session_id ≡ some c

-- Every identifier has one connection.
abbrev pub IsMap : List ClientConn → Type 0
IsMap [] = Unit
IsMap (c ∷ cs) = (find_conn cs c.session_id ≡ none) × IsMap cs

pub record IsLinked (d : Dialer) : Type 0 where
  pub live : All (IsLive d.conns) d.conns
  pub unique : IsMap d.conns
  pub blocked : All (IsLive d.conns) d.blocked_conns

-- The alarm is set while connections wait to be deleted; a dialer that does not run has none.
pub record IsSound (d : Dialer) : Type 0 where
  pub linked : IsLinked d
  pub alarm : (is_nil d.closed_conns || d.delete_conns_alarm) ≡ true
  pub off :
      (d.crypto_config || (is_nil d.conns && is_nil d.blocked_conns && is_nil d.closed_conns))
      ≡ true

find_conn-erase_id :
    (conns : List ClientConn) (id other : ℕ)
    → (other == id) ≡ false
    → find_conn (erase_id conns id) other ≡ find_conn conns other
find_conn-erase_id [] id other h = refl
find_conn-erase_id (c ∷ cs) id other h = ground (arith, find_conn-erase_id cs id other h, h)

erase_id-IsMap : (xs : List ClientConn) (id : ℕ) → IsMap xs → IsMap (erase_id xs id)
erase_id-IsMap [] id h = tt
erase_id-IsMap (x ∷ xs) id h =
    if-cases IsMap (x.session_id == id) (λ t. erase_id-IsMap xs id h.1)
      (λ t. (find_conn-erase_id xs id x.session_id t ∙ h.0, erase_id-IsMap xs id h.1))

erase_id-IsLive :
    (conns xs : List ClientConn) (id : ℕ)
    → All (IsLive conns) xs
    → All (IsLive (erase_id conns id)) (erase_id xs id)
erase_id-IsLive conns [] id h = tt
erase_id-IsLive conns (x ∷ xs) id h =
    if-cases (All (IsLive (erase_id conns id))) (x.session_id == id)
      (λ t. erase_id-IsLive conns xs id h.1)
      (λ t. (find_conn-erase_id conns id x.session_id t ∙ h.0, erase_id-IsLive conns xs id h.1))

abbrev address_of : Option ClientConn → ℕ
address_of none = 0
address_of (some c) = c.address

pub live-is_nil : (conns : List ClientConn) (c : ClientConn) → IsLive conns c → is_nil conns ≡ false
live-is_nil [] c h = cc
live-is_nil (x ∷ xs) c h = refl

-- Two connections of the map at different addresses have different identifiers.
other_id :
    (conns : List ClientConn) (b c : ClientConn)
    → IsLive conns b
    → IsLive conns c
    → (b.address == c.address) ≡ false
    → (b.session_id == c.session_id) ≡ false
other_id conns b c h k n = elim (Bool-cases (b.session_id == c.session_id)) [
  | inr f ↦ f
  | inl t ↦
      let e : b.session_id ≡ c.session_id = ground (arith, t) in
      let f : some b ≡ some c = sym h ∙ ap (find_conn conns) e ∙ k in
      absurd (ground (arith, n, ap (λ o. address_of o) f))
]

erase_conn-IsLive :
    (conns bs : List ClientConn) (c : ClientConn)
    → IsLive conns c
    → All (IsLive conns) bs
    → All (IsLive (erase_id conns c.session_id)) (erase_conn bs c)
erase_conn-IsLive conns [] c k h = tt
erase_conn-IsLive conns (b ∷ bs) c k h =
    if-cases (All (IsLive (erase_id conns c.session_id))) (b.address == c.address)
      (λ t. erase_conn-IsLive conns bs c k h.1)
      (λ t. (
        find_conn-erase_id conns c.session_id b.session_id (other_id conns b c h.0 k t) ∙ h.0,
        erase_conn-IsLive conns bs c k h.1,
      ))

insert_conn-IsLive :
    (conns bs : List ClientConn) (c : ClientConn)
    → IsLive conns c
    → All (IsLive conns) bs
    → All (IsLive conns) (insert_conn bs c)
insert_conn-IsLive conns [] c k h = (k, tt)
insert_conn-IsLive conns (b ∷ bs) c k h =
    if-cases (All (IsLive conns)) (b.address == c.address) (λ t. h)
      (λ t. (h.0, insert_conn-IsLive conns bs c k h.1))

find_conn-add :
    (conns : List ClientConn) (x c : ClientConn)
    → find_conn conns c.session_id ≡ none
    → IsLive conns x
    → IsLive (c ∷ conns) x
find_conn-add conns x c n h = elim (Bool-cases (c.session_id == x.session_id)) [
  | inl t ↦
      let e : c.session_id ≡ x.session_id = ground (arith, t) in
      let f : none ≡ some x = sym n ∙ ap (find_conn conns) e ∙ h in cc
  | inr f ↦ rw f h
]

add-IsLive :
    (conns xs : List ClientConn) (c : ClientConn)
    → find_conn conns c.session_id ≡ none
    → All (IsLive conns) xs
    → All (IsLive (c ∷ conns)) xs
add-IsLive conns [] c n h = tt
add-IsLive conns (x ∷ xs) c n h = (find_conn-add conns x c n h.0, add-IsLive conns xs c n h.1)

pub on_closed-IsLinked :
    {d : Dialer} (c : ClientConn) → IsLinked d → IsLive d.conns c → IsLinked (on_closed d c)
unfolding on_closed
on_closed-IsLinked {d} c s k = rw k record {
  live = erase_id-IsLive d.conns d.conns c.session_id s.live;
  unique = erase_id-IsMap d.conns c.session_id s.unique;
  blocked = erase_conn-IsLive d.conns d.blocked_conns c k s.blocked;
}

pub on_closed-IsSound :
    {d : Dialer} (c : ClientConn) → IsSound d → IsLive d.conns c → IsSound (on_closed d c)
on_closed-IsSound {d} c s k = record {
  linked = on_closed-IsLinked c s.linked k;
  alarm = unfold on_closed in rw k (ground (arith, s.alarm));
  off = unfold on_closed in rw k (ground (arith, s.off, live-is_nil d.conns c k));
}

pub on_conn_write_blocked-IsSound :
    {d : Dialer} (c : ClientConn)
    → IsSound d
    → IsLive d.conns c
    → IsSound (on_conn_write_blocked d c)
unfolding on_conn_write_blocked
on_conn_write_blocked-IsSound {d} c s k = record {
  linked = record {
    live = s.linked.live;
    unique = s.linked.unique;
    blocked = insert_conn-IsLive d.conns d.blocked_conns c k s.linked.blocked;
  };
  alarm = s.alarm;
  off = ground (arith, s.off, live-is_nil d.conns c k);
}

add_conn-IsSound :
    {d : Dialer} (conn : ClientConn) (found : Option ClientConn)
    → found ≡ find_conn d.conns conn.session_id
    → d.crypto_config ≡ true
    → IsSound d
    → IsSound (add_conn d conn found)
add_conn-IsSound {d} conn none e o s = record {
  linked = record {
    live = (ground arith, add-IsLive d.conns d.conns conn (sym e) s.linked.live);
    unique = (sym e, s.linked.unique);
    blocked = add-IsLive d.conns d.blocked_conns conn (sym e) s.linked.blocked;
  };
  alarm = s.alarm;
  off = ground (arith, o);
}
add_conn-IsSound conn (some c) e o s = s

-- The maps of a dialer decide alone whether they fit together.
pub same_maps :
    {d e : Dialer} → IsLinked d → e.conns ≡ d.conns → e.blocked_conns ≡ d.blocked_conns → IsLinked e
same_maps {d} {e} l c b = record {
  live = rw c l.live;
  unique = rw c l.unique;
  blocked = rw c (rw b l.blocked);
}

pub start-IsSound : {d : Dialer} (bound : Bool) → IsSound d → IsSound (start d bound).1
unfolding start
start-IsSound {d} bound s =
    let P : DialerResult × Dialer → Type 0 = λ r. IsSound r.1 in
    if-cases P d.crypto_config (λ t. s)
      (λ t.
        if-cases P (not bound)
          (λ u. record { linked = same_maps s.linked refl refl; alarm = s.alarm; off = s.off })
          (λ u. record {
            linked = same_maps s.linked refl refl;
            alarm = ground (arith, s.off, t);
            off = refl;
          }))

ensure_started_lem :
    {d : Dialer} (bound : Bool)
    → IsSound d
    → IsSound (ensure_started d bound).1
      × ((not (is_success (ensure_started d bound).0) || (ensure_started d bound).1.crypto_config)
          ≡ true)
unfolding ensure_started
ensure_started_lem {d} bound s =
    let P : DialerResult × Dialer → Type 0 =
      λ r. IsSound r.1 × ((not (is_success r.0) || r.1.crypto_config) ≡ true) in
    if-cases P d.crypto_config (λ t. (s, ground (arith, t)))
      (λ t. (start-IsSound bound s, unfold start in ground (arith, t)))

pub create_conn-IsSound :
    {d : Dialer} (conn : ClientConn) (bound : Bool)
    → IsSound d
    → IsSound (create_conn d conn bound).1
unfolding create_conn
create_conn-IsSound {d} conn bound s =
    let (t, c) = ensure_started_lem bound s in
    let P : Option ClientConn × Dialer → Type 0 = λ r. IsSound r.1 in
    if-cases P (not (is_success (ensure_started d bound).0)) (λ u. t)
      (λ u.
        add_conn-IsSound conn (find_conn (ensure_started d bound).1.conns conn.session_id) refl
          (ground (arith, c, u)) t)
