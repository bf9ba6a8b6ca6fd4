-- ===== src/Device/Searches.antt =====
-- The searches that the table of internal/device/epics.go keeps: one for a key, and no more than
-- `maxSearches`.
use wirepup.Epics.Ca
use wirepup.Base.{
  ℕ, suc, ◌≤◌, Bool, true, false, Option, none, some, List, [], ◌∷◌, ◌++◌, ◌≡◌, refl, sym, ap, ◌∙◌,
  arith, if◌then◌else◌, inl, inr, Bool-cases, ltb, ltb→le, length, drop, Bytes, length-append,
}
use wirepup.Net.{addr_eq, addr_eq_iff, Addr}
use wirepup.Device.Types.{Ref}
use wirepup.Device.EpicsState.{CaSearch, max_searches, find_by, modify_by, ensure_search, is_search}
use wirepup.Device.Channels.{note_ca_search}

module _ {ℓ} {A : Type ℓ} where
  absent-cons :
      (p : A → Bool) (y : A) (l : List A)
      → find_by p (y ∷ l) ≡ none
      → (p y ≡ false) × (find_by p l ≡ none)
  unfolding find_by
  absent-cons p y l h = elim (Bool-cases (p y)) [ inl e ↦ ground arith | inr e ↦ ground arith ]

  cons-absent :
      (p : A → Bool) (y : A) (l : List A)
      → p y ≡ false
      → find_by p l ≡ none
      → find_by p (y ∷ l) ≡ none
  unfolding find_by
  cons-absent p y l e h = rw e h

  found-append :
      (p : A → Bool) (x : A) (l : List A)
      → find_by p l ≡ none
      → p x ≡ true
      → find_by p (l ++ (x ∷ [])) ≡ some x
  unfolding find_by
  found-append p x [] h e = rw e refl
  found-append p x (y ∷ l) h e = let (f, k) = absent-cons p y l h in rw f (found-append p x l k e)

  absent-append :
      (p : A → Bool) (x : A) (l : List A)
      → find_by p l ≡ none
      → p x ≡ false
      → find_by p (l ++ (x ∷ [])) ≡ none
  absent-append p x [] h e = cons-absent p x [] e h
  absent-append p x (y ∷ l) h e =
      let (f, k) = absent-cons p y l h in cons-absent p y _ f (absent-append p x l k e)

  module _ (p : A → Bool) (f : A → A) where
    length-modify : (l : List A) → length (modify_by p f l) ≡ length l
    unfolding modify_by
    length-modify [] = refl
    length-modify (x ∷ l) = elim (Bool-cases (p x)) [
      | inl e ↦ rw e refl
      | inr e ↦ rw e (ap suc (length-modify l))
    ]

    found-modify :
        (x : A) (l : List A)
        → ((y : A) → p (f y) ≡ p y)
        → find_by p l ≡ some x
        → find_by p (modify_by p f l) ≡ some (f x)
    unfolding find_by modify_by
    found-modify x [] k h = absurd (ground arith)
    found-modify x (y ∷ l) k h = elim (Bool-cases (p y)) [
      | inl e ↦
          let r : find_by p (y ∷ l) ≡ some y = rw e refl in
          let same : some (f y) ≡ some (f x) =
            ap (λ o. elim o [ some z ↦ some (f z) | none ↦ none ]) (sym r ∙ h) in
          rw (e, k y ∙ e) same
      | inr e ↦
          let r : find_by p (y ∷ l) ≡ find_by p l = rw e refl in
          rw (e, e) (found-modify x l k (sym r ∙ h))
    ]

    absent-modify :
        (q : A → Bool) (l : List A)
        → ((y : A) → q (f y) ≡ q y)
        → find_by q l ≡ none
        → find_by q (modify_by p f l) ≡ none
    unfolding modify_by
    absent-modify q [] k h = h
    absent-modify q (y ∷ l) k h =
        let (g, r) = absent-cons q y l h in
        elim (Bool-cases (p y)) [
          | inl e ↦ rw e (cons-absent q (f y) l (k y ∙ g) r)
          | inr e ↦ rw e (cons-absent q y _ g (absent-modify q l k r))
        ]

-- The test for the key of a search.
abbrev pub same : CaSearch → CaSearch → Bool
same s = is_search s.client_ip s.id

addr_eq-sym : (a b : Addr) → addr_eq a b ≡ addr_eq b a
addr_eq-sym a b = elim (Bool-cases (addr_eq a b)) [
  | inl e ↦ e ∙ sym ((addr_eq_iff b a).1 (sym ((addr_eq_iff a b).0 e)))
  | inr e ↦ elim (Bool-cases (addr_eq b a)) [
    | inl f ↦
        let g : addr_eq a b ≡ true = (addr_eq_iff a b).1 (sym ((addr_eq_iff b a).0 f)) in
        absurd (cc)
    | inr f ↦ e ∙ sym f
  ]
]

same-sym : (s r : CaSearch) → same s r ≡ same r s
same-sym s r = rw (addr_eq-sym r.client_ip s.client_ip) (ground arith)

-- No two searches have one key, and there are 10000 at most.
abbrev pub Unique : List CaSearch → Type 0
Unique [] = Unit
Unique (s ∷ l) = (find_by (same s) l ≡ none) × Unique l

abbrev pub Tracked : List CaSearch → Type 0
Tracked l = Unique l × (length l ≤ 10000)

Unique-append :
    (x : CaSearch) (l : List CaSearch)
    → Unique l
    → find_by (same x) l ≡ none
    → Unique (l ++ (x ∷ []))
unfolding find_by
Unique-append x [] u h = (refl, tt)
Unique-append x (y ∷ l) (a, u) h =
    let (e, k) = absent-cons (same x) y l h in
    (absent-append (same y) x l a (same-sym y x ∙ e), Unique-append x l u k)

-- What one more request does to a search.
abbrev pub counted : ℕ → CaSearch → CaSearch
counted now s = record s { count = suc s.count; last_seen = now }

modify-Unique :
    (p : CaSearch → Bool) (now : ℕ) (l : List CaSearch)
    → Unique l
    → Unique (modify_by p (counted now) l)
unfolding modify_by
modify-Unique p now [] u = tt
modify-Unique p now (x ∷ l) (a, u) = elim (Bool-cases (p x)) [
  | inl e ↦ rw e (a, u)
  | inr e ↦ rw e (absent-modify p (counted now) (same x) l (λ y. refl) a, modify-Unique p now l u)
]

-- The search of the key, or the one that is new.
abbrev pub held : CaSearch → Option CaSearch → CaSearch
held fresh none = fresh
held fresh (some s) = s

ensure_search-new :
    (p : CaSearch → Bool) (x : CaSearch) (l : List CaSearch)
    → find_by p l ≡ none
    → ensure_search p x l ≡ (
        if ltb max_searches (length (l ++ (x ∷ []))) then drop 1 (l ++ (x ∷ [])) else l ++ (x ∷ []))
unfolding ensure_search
ensure_search-new p x l e = rw (ensure_search, e) refl

ensure_search-old :
    (p : CaSearch → Bool) (x s : CaSearch) (l : List CaSearch)
    → find_by p l ≡ some s
    → ensure_search p x l ≡ l
unfolding ensure_search
ensure_search-old p x s l e = rw (ensure_search, e) refl

-- The new search behind the others, and the oldest one dropped.
added-Tracked :
    (fresh : CaSearch) (l : List CaSearch)
    → same fresh fresh ≡ true
    → find_by (same fresh) l ≡ none
    → Tracked l
    → (l' : List CaSearch)
    → l' ≡ (
        if ltb max_searches (length (l ++ (fresh ∷ [])))
        then drop 1 (l ++ (fresh ∷ []))
        else l ++ (fresh ∷ []))
    → Tracked l' × (find_by (same fresh) l' ≡ some fresh)
added-Tracked fresh [] r e (u, b) l' w =
    rw w ((Unique-append fresh [] u e, omega arith), found-append (same fresh) fresh [] e r)
added-Tracked fresh (s ∷ l) r e (u, b) l' w =
    let more = s ∷ (l ++ (fresh ∷ [])) in
    let (f, k) = absent-cons (same fresh) s l e in
    elim (Bool-cases (ltb max_searches (length more))) [
      | inl m ↦
          rw (w, m)
            (
              (Unique-append fresh l u.1 k, omega (arith, length-append l (fresh ∷ []))),
              found-append (same fresh) fresh l k r,
            )
      | inr m ↦
          rw (w, m)
            (
              (Unique-append fresh (s ∷ l) u e, ltb→le max_searches (length more) m),
              found-append (same fresh) fresh (s ∷ l) e r,
            )
    ]

ensured :
    (fresh : CaSearch) (l : List CaSearch) (o : Option CaSearch)
    → find_by (same fresh) l ≡ o
    → same fresh fresh ≡ true
    → Tracked l
    → Tracked (ensure_search (same fresh) fresh l)
      × (find_by (same fresh) (ensure_search (same fresh) fresh l) ≡ some (held fresh o))
ensured fresh l none e r t =
    added-Tracked fresh l r e t _ (ensure_search-new (same fresh) fresh l e)
ensured fresh l (some s) e r t = rw (ensure_search-old (same fresh) fresh s l e) (t, e)

-- The search of a request, as it stands before it is counted.
abbrev pub asked : Ca.Observation → Bytes → ℕ → Ref → CaSearch
asked v mac now ref = record {
  client_ip = v.src;
  client_port = v.src_port;
  client_mac = mac;
  destination = v.dst;
  id = v.search_id;
  pv = v.pv_name;
  count = 0;
  first_seen = now;
  last_seen = now;
  responses = [];
  not_found = [];
  ref = ref;
}

abbrev pub Tracks : Ca.Observation → Bytes → ℕ → Ref → List CaSearch → List CaSearch → Type 0
Tracks v mac now ref l l' =
    Tracked l'
    × (find_by (is_search v.src v.search_id) l'
        ≡ some (counted now (held (asked v mac now ref) (find_by (is_search v.src v.search_id) l))))

-- A search request that `applyCA` folds into a list of at most 10000 searches with one for each client and
-- id leaves such a list. In it the search of the client and the id is the one that was there, or a
-- new one with the name, the ports and the addresses of the request, counted once more and seen now.
pub note_ca_search-Tracks :
    (v : Ca.Observation) (mac : Bytes) (now : ℕ) (ref : Ref) (l : List CaSearch)
    → Tracked l
    → Tracks v mac now ref l (note_ca_search v mac now ref l)
unfolding note_ca_search
note_ca_search-Tracks v mac now ref l t =
    let fresh : CaSearch = asked v mac now ref in
    let p : CaSearch → Bool = same fresh in
    let own : p fresh ≡ true = rw ((addr_eq_iff v.src v.src).1 refl) (ground arith) in
    let ((u, b), found) = ensured fresh l (find_by p l) refl own t in
    let l1 : List CaSearch = ensure_search p fresh l in
    (
      (modify-Unique p now l1 u, omega (arith, length-modify p (counted now) l1, b)),
      found-modify p (counted now) (held fresh (find_by p l)) l1 (λ y. refl) found,
    )
