-- ===== src/ConnState/Entries.antt =====
-- How the tables of connections and of blacklisted peers read after a write.
use kraken.Base.{
  ℕ, Bool, not, none, some, List, [], ◌∷◌, ◌++◌, if◌then◌else◌, ◌==◌, ◌&&◌, get, put, del, select,
  ◌≡◌, refl, arith, get-put, get-del, inl, inr, Option-cases,
}
use kraken.ConnState.{
  State, Entry, ConnKey, empty_entry, peers_of, get_entry, put_entry, delete_entry, expiration,
  put_expiration, NetworkEvent, Conn, is_pending, is_active, same_conn, active_entry,
  move_pending_to_active, delete_active, add_active_conn, drop_active_conn,
}

-- What `get` reads after `put`: the written entry there, and the old one elsewhere.
pub get_entry-put_entry :
    (h p j q : ℕ) (e : Entry) (s : State)
    → get_entry j q (put_entry h p e s) ≡ (if (h == j) && (p == q) then e else get_entry j q s)
unfolding get_entry put_entry
get_entry-put_entry h p j q e s =
    ground (arith, get-put h j (put p e (peers_of h s)) s.conns, get-put p q e (peers_of h s))

pub peers_of-put_entry :
    (h p j : ℕ) (e : Entry) (s : State)
    → peers_of j (put_entry h p e s) ≡ (if h == j then put p e (peers_of h s) else peers_of j s)
unfolding put_entry
peers_of-put_entry h p j e s = ground (arith, get-put h j (put p e (peers_of h s)) s.conns)

-- An emptied inner map is dropped, which reads as the empty map that is left.
pub peers_of-delete_entry :
    (h p j : ℕ) (s : State)
    → peers_of j (delete_entry h p s) ≡ (if h == j then del p (peers_of h s) else peers_of j s)
unfolding delete_entry peers_of del
peers_of-delete_entry h p j s = elim (Option-cases (get h s.conns)) [
  | inl e ↦ ground arith
  | inr (m, e) ↦ ground (arith, get-del h j s.conns, get-put h j (del p m) s.conns)
]

pub get_entry-delete_entry :
    (h p j q : ℕ) (s : State)
    → get_entry j q (delete_entry h p s)
      ≡ (if (h == j) && (p == q) then empty_entry else get_entry j q s)
unfolding get_entry
get_entry-delete_entry h p j q s =
    ground (arith, peers_of-delete_entry h p j s, get-del p q (peers_of h s))

get_entry-produced :
    (h p : ℕ) (events : List NetworkEvent) (s : State)
    → get_entry h p (record s { produced = events }) ≡ get_entry h p s
unfolding get_entry peers_of
get_entry-produced h p events s = refl

-- What `move_pending_to_active` and `delete_active` do to each entry.
pub get_entry-move :
    (h p : ℕ) (closed : Bool) (c : Conn) (s : State)
    → get_entry h p (move_pending_to_active closed c s).0 ≡ (
        if not closed
          && (is_pending (get_entry c.info_hash c.peer_id s).status
              && ((c.info_hash == h) && (c.peer_id == p)))
        then active_entry c
        else get_entry h p s)
unfolding move_pending_to_active
get_entry-move h p closed c s = ground (
  arith,
  get_entry-produced h p (s.produced ++ add_active_conn c.info_hash s.local_peer_id c.peer_id ∷ [])
      (put_entry c.info_hash c.peer_id (active_entry c) s),
  get_entry-put_entry c.info_hash c.peer_id h p (active_entry c) s,
)

pub get_entry-delete_active :
    (h p : ℕ) (c : Conn) (s : State)
    → get_entry h p (delete_active c s) ≡ (
        if is_active (get_entry c.info_hash c.peer_id s).status
          && (same_conn (get_entry c.info_hash c.peer_id s).conn c
              && ((c.info_hash == h) && (c.peer_id == p)))
        then empty_entry
        else get_entry h p s)
unfolding delete_active
get_entry-delete_active h p c s = ground (
  arith,
  get_entry-produced h p (s.produced ++ drop_active_conn c.info_hash s.local_peer_id c.peer_id ∷ [])
      (delete_entry c.info_hash c.peer_id s),
  get_entry-delete_entry c.info_hash c.peer_id h p s,
)

pub expiration-put_expiration :
    (h p j q t : ℕ) (b : List (ConnKey × ℕ))
    → expiration j q (put_expiration h p t b)
      ≡ (if (h == j) && (p == q) then some t else expiration j q b)
unfolding expiration put_expiration
expiration-put_expiration h p j q t [] = ground arith
expiration-put_expiration h p j q t ((k, u) ∷ b) =
    ground (arith, expiration-put_expiration h p j q t b)

pub expiration-select :
    (h j q : ℕ) (b : List (ConnKey × ℕ))
    → expiration j q (select (λ e. not (e.0.hash == h)) b)
      ≡ (if h == j then none else expiration j q b)
unfolding expiration
expiration-select h j q [] = ground arith
expiration-select h j q ((k, u) ∷ b) = ground (arith, expiration-select h j q b)
