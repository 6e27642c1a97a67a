-- ===== src/ConnState/Peers.antt =====
-- The well-formedness of a `State`, and what a write or a deletion of an entry keeps of it: capacity, distinct keys, no empty inner map, and entries that
-- hold the connection that they stand for.
use kraken.Base.{
  ℕ, ◌≤◌, ◌<◌, true, false, none, some, [], ◌==◌, Map, get, put, del, has, size, Distinct, ◌≡◌,
  arith, ◌⊎◌, inl, inr, Option-cases, Bool-cases, sym, subst, eq-cases, size_pos, get-put, get-del,
  size-put, size-del-le, put-Distinct, del-Distinct,
}
use kraken.ConnState.{State, pending, active, Entry, Conn, peers_of, put_entry, delete_entry}

-- An entry is pending, or active with a connection of this torrent and peer.
abbrev pub EntryIsValid : ℕ → ℕ → Entry → Type 0
EntryIsValid h p e =
    ((e.status ≡ pending) × (e.conn ≡ none))
    ⊎ ((c : Conn) × (e.status ≡ active) × (e.conn ≡ some c) × (c.info_hash ≡ h) × (c.peer_id ≡ p))

pub record PeersAreValid (max h : ℕ) (m : Map Entry) : Type 0 where
  pub distinct : Distinct m
  pub nonempty : 0 < size m
  pub bounded : size m ≤ max
  pub entries : (p : ℕ) (e : Entry) → get p m ≡ some e → EntryIsValid h p e

pub record IsValid (s : State) : Type 0 where
  pub distinct : Distinct s.conns
  pub peers :
      (h : ℕ) (m : Map Entry)
      → get h s.conns ≡ some m
      → PeersAreValid s.config.max_open_connections_per_torrent h m

put-PeersAreValid :
    (max h p : ℕ) (e : Entry) (m : Map Entry)
    → Distinct m
    → ((has p m ≡ true) × (size m ≤ max)) ⊎ (size m < max)
    → ((q : ℕ) (x : Entry) → get q m ≡ some x → EntryIsValid h q x)
    → EntryIsValid h p e
    → PeersAreValid max h (put p e m)
put-PeersAreValid max h p e m d room old new = record {
  distinct = put-Distinct p e m d;
  nonempty = size_pos p (put p e m) {v = e} (ground (arith, get-put p p e m));
  bounded = ground (arith, size-put p e m);
  entries = λ q x g. elim (eq-cases p q) [
    | inl same ↦
        let written : e ≡ x = ground (arith, get-put p q e m) in
        subst (λ k. EntryIsValid h k x) same (subst (EntryIsValid h p) written new)
    | inr other ↦ old q x (ground (arith, get-put p q e m))
  ];
}

del-PeersAreValid :
    (max h p : ℕ) (m : Map Entry)
    → (size (del p m) == 0) ≡ false
    → PeersAreValid max h m
    → PeersAreValid max h (del p m)
del-PeersAreValid max h p m left v = record {
  distinct = del-Distinct p m v.distinct;
  nonempty = ground arith;
  bounded = omega (arith, size-del-le p m, v.bounded);
  entries = λ q x g. v.entries q x (ground (arith, get-del p q m));
}

-- The three ways in which an entry is deleted.
module _ (h p : ℕ) (s : State) where
  delete_none : get h s.conns ≡ none → delete_entry h p s ≡ s
  unfolding delete_entry
  delete_none e = ground arith

  delete_last :
      (m : Map Entry)
      → get h s.conns ≡ some m
      → (size (del p m) == 0) ≡ true
      → delete_entry h p s ≡ record s { conns = del h s.conns }
  unfolding delete_entry
  delete_last m e empty = ground arith

  delete_more :
      (m : Map Entry)
      → get h s.conns ≡ some m
      → (size (del p m) == 0) ≡ false
      → delete_entry h p s ≡ record s { conns = put h (del p m) s.conns }
  unfolding delete_entry
  delete_more m e left = ground arith

-- The peers of a torrent, where the missing map reads as empty.
peers_of-cases :
    (h : ℕ) (s : State)
    → ((get h s.conns ≡ none) × (peers_of h s ≡ [])) ⊎ (get h s.conns ≡ some (peers_of h s))
unfolding peers_of
peers_of-cases h s = elim (Option-cases (get h s.conns)) [
  | inl e ↦ inl (e, ground arith)
  | inr (m, e) ↦ inr (ground arith)
]

entry-IsValid :
    (h p : ℕ) (s : State) (e : Entry)
    → IsValid s
    → get p (peers_of h s) ≡ some e
    → EntryIsValid h p e
entry-IsValid h p s e v g = elim (peers_of-cases h s) [
  | inl (_, empty) ↦ absurd (unfold get in ground arith)
  | inr found ↦ (v.peers h (peers_of h s) found).entries p e g
]

peers-Distinct : (h : ℕ) (s : State) → IsValid s → Distinct (peers_of h s)
peers-Distinct h s v = elim (peers_of-cases h s) [
  | inl (_, empty) ↦ subst Distinct (sym empty) tt
  | inr found ↦ (v.peers h (peers_of h s) found).distinct
]

pub peers_bounded :
    (h : ℕ) (s : State)
    → IsValid s
    → size (peers_of h s) ≤ s.config.max_open_connections_per_torrent
peers_bounded h s v = elim (peers_of-cases h s) [
  | inl (_, empty) ↦ ground arith
  | inr found ↦ (v.peers h (peers_of h s) found).bounded
]

pub put_entry-IsValid :
    (h p : ℕ) (e : Entry) (s : State)
    → IsValid s
    → (has p (peers_of h s) ≡ true)
      ⊎ (size (peers_of h s) < s.config.max_open_connections_per_torrent)
    → EntryIsValid h p e
    → IsValid (put_entry h p e s)
unfolding put_entry
put_entry-IsValid h p e s v room new = record {
  distinct = put-Distinct h (put p e (peers_of h s)) s.conns v.distinct;
  peers = λ j m g. elim (eq-cases h j) [
    | inl same ↦
        let written : put p e (peers_of h s) ≡ m =
          ground (arith, get-put h j (put p e (peers_of h s)) s.conns) in
        subst (λ k. PeersAreValid max k m) same (subst (PeersAreValid max h) written here)
    | inr other ↦ v.peers j m (ground (arith, get-put h j (put p e (peers_of h s)) s.conns))
  ];
}
  where
    max : ℕ
    max = s.config.max_open_connections_per_torrent

    here : PeersAreValid max h (put p e (peers_of h s))
    here =
        put-PeersAreValid max h p e (peers_of h s) (peers-Distinct h s v)
          (elim room [ inl old ↦ inl (old, peers_bounded h s v) | inr less ↦ inr less ])
          (λ q x g. entry-IsValid h q s x v g) new

pub delete_entry-IsValid : (h p : ℕ) (s : State) → IsValid s → IsValid (delete_entry h p s)
delete_entry-IsValid h p s v = elim (Option-cases (get h s.conns)) [
  | inl e ↦ subst IsValid (sym (delete_none h p s e)) v
  | inr (m, e) ↦ elim (Bool-cases (size (del p m) == 0)) [
    | inl empty ↦ subst IsValid (sym (delete_last h p s m e empty)) (record {
      distinct = del-Distinct h s.conns v.distinct;
      peers = λ j n g. v.peers j n (ground (arith, get-del h j s.conns));
    })
    | inr left ↦ subst IsValid (sym (delete_more h p s m e left)) (record {
      distinct = put-Distinct h (del p m) s.conns v.distinct;
      peers = λ j n g. elim (eq-cases h j) [
        | inl same ↦
            let written : del p m ≡ n = ground (arith, get-put h j (del p m) s.conns) in
            subst (λ k. PeersAreValid s.config.max_open_connections_per_torrent k n) same
              (subst (PeersAreValid s.config.max_open_connections_per_torrent h) written
                (del-PeersAreValid _ h p m left (v.peers h m e)))
        | inr other ↦ v.peers j n (ground (arith, get-put h j (del p m) s.conns))
      ];
    })
  ]
]
