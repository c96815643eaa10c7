-- ===== src/Storage/Register.antt =====
-- examples/storage: what a server replies, by the writes that it received: the latest time wins.
use mathlib.Core.Path.{subst}
use gorums_ata.Base.{
  ◌≡◌, refl, sym, ap, ◌∙◌, ◌⊎◌, inl, inr, Bool, true, false, ◌&&◌, not, Option, none, some, List,
  [], ◌∷◌, ◌++◌, arith, Bool-cases, Option-cases, any, any-append, ℤ, pos, negsuc, compare_int,
  is_gt,
}
use Prim.Native.String.{String}
use text.Mathlib.Text.{◌==◌ as str_eq}
use text.Mathlib.TextEquality.{eq_iff}
use gorums_ata.Storage.{State, WriteRequest, ReadResponse, Storage, find, read, write, is_stale}

-- What clients ask of a server, and what it replies.
pub data Operation : Type 0 where
  reads : String → Operation
  writes : WriteRequest → Operation

pub data Reply : Type 0 where
  value : ReadResponse → Reply
  written : Bool → Reply

-- The server's handlers, one call after the other under its mutex.
unfoldable pub serve : Storage → List Operation → List Reply
serve m [] = []
serve m (reads k ∷ os) = value (read m k) ∷ serve m os
serve m (writes req ∷ os) = written (write m req).1 ∷ serve (write m req).0 os

-- Of two times, whether the first is later.
abbrev pub is_later : ℤ → ℤ → Bool
is_later a b = is_gt (compare_int a b)

-- Whether a write to a key has a time later than one given, or one that is not earlier.
abbrev pub beats : String → ℤ → WriteRequest → Bool
beats k t v = str_eq v.key k && is_later v.time t

abbrev pub catches : String → ℤ → WriteRequest → Bool
catches k t v = str_eq v.key k && not (is_later t v.time)

-- Of the writes received so far, the last one first, `w` is the one that counts for the key: no other
-- write to the key has a later time, and none that came after it has the same time.
abbrev pub IsLatest : List WriteRequest → String → WriteRequest → Type 0
IsLatest h k w =
    (newer : List WriteRequest) × (older : List WriteRequest) × (h ≡ newer ++ w ∷ older)
    × (w.key ≡ k)
    × (any (catches k w.time) newer ≡ false)
    × (any (beats k w.time) older ≡ false)

-- What a read may return: the latest write, or that there is none.
abbrev pub IsAnswer : List WriteRequest → String → ReadResponse → Type 0
IsAnswer h k r =
    ((r.found ≡ false) × (any (λ v. str_eq v.key k) h ≡ false))
    ⊎ ((r.found ≡ true)
        × (w : WriteRequest) × IsLatest h k w
        × (r.value ≡ w.value)
        × (r.time ≡ w.time))

-- The specification, by the writes received so far: a write is `New` exactly if no write to its key
-- had a later time.
abbrev pub IsServed : List WriteRequest → List Operation → List Reply → Type 0
IsServed h [] [] = Unit {0}
IsServed h (reads k ∷ os) (value r ∷ rs) = IsAnswer h k r × IsServed h os rs
IsServed h (writes req ∷ os) (written b ∷ rs) =
    (b ≡ not (any (beats req.key req.time) h)) × IsServed (req ∷ h) os rs
IsServed h _ _ = ⊥

-- What the server has stored for a key.
abbrev IsStored : List WriteRequest → String → Option State → Type 0
IsStored h k none = any (λ v. str_eq v.key k) h ≡ false
IsStored h k (some s) =
    (w : WriteRequest) × IsLatest h k w × (s.value ≡ w.value) × (s.time ≡ w.time)

later_trans : (a b c : ℤ) → is_later a b ≡ false → is_later b c ≡ false → is_later a c ≡ false
later_trans (pos a) (pos b) (pos c) g h = ground arith
later_trans (pos a) (pos b) (negsuc c) g h = ground arith
later_trans (pos a) (negsuc b) c g h = ground arith
later_trans (negsuc a) (pos b) (pos c) g h = ground arith
later_trans (negsuc a) (pos b) (negsuc c) g h = ground arith
later_trans (negsuc a) (negsuc b) (pos c) g h = ground arith
later_trans (negsuc a) (negsuc b) (negsuc c) g h = ground arith

later_asym : (a b : ℤ) → is_later a b ≡ true → is_later b a ≡ false
later_asym (pos a) (pos b) h = ground arith
later_asym (pos a) (negsuc b) h = ground arith
later_asym (negsuc a) (pos b) h = ground arith
later_asym (negsuc a) (negsuc b) h = ground arith

none-beats :
    (k : String) (t : ℤ) (h : List WriteRequest)
    → any (λ v. str_eq v.key k) h ≡ false
    → any (beats k t) h ≡ false
none-beats k t [] e = refl
none-beats k t (v ∷ h) e = ground (arith, none-beats k t h)

none_later :
    (k : String) (t u : ℤ) (h : List WriteRequest)
    → is_later t u ≡ false
    → any (beats k t) h ≡ false
    → any (beats k u) h ≡ false
none_later k t u [] up e = refl
none_later k t u (v ∷ h) up e = ground (arith, none_later k t u h up, later_trans v.time t u)

caught :
    (k : String) (t : ℤ) (h : List WriteRequest)
    → any (catches k t) h ≡ false
    → any (beats k t) h ≡ false
caught k t [] e = refl
caught k t (v ∷ h) e = ground (arith, caught k t h, later_asym v.time t)

later_irrefl : (a : ℤ) → is_later a a ≡ false
later_irrefl (pos a) = ground arith
later_irrefl (negsuc a) = ground arith

-- No write beats the latest one, and it beats any that comes earlier.
latest-beats :
    (h : List WriteRequest) (k : String) (w : WriteRequest) (t : ℤ)
    → IsLatest h k w
    → any (beats k t) h ≡ is_later w.time t
latest-beats h k w t (newer, older, e, key, front, back) =
    let both = any-append (beats k t) newer (w ∷ older) in
    let here : str_eq w.key k ≡ true = (eq_iff w.key k).1 key in
    rw e elim (Bool-cases (is_later w.time t)) [
      | inl above ↦ ground arith
      | inr below ↦ ground (
        arith,
        none_later k w.time t newer below (caught k w.time newer front),
        none_later k w.time t older below back,
      )
    ]

stored-beats :
    (h : List WriteRequest) (k : String) (o : Option State) (t : ℤ)
    → IsStored h k o
    → is_stale o t ≡ any (beats k t) h
stored-beats h k none t i = sym (none-beats k t h i)
stored-beats h k (some s) t (w, latest, v, e) =
    ap (λ u. is_later u t) e ∙ sym (latest-beats h k w t latest)

-- A write to another key, or one that is stale, is one more that does not count.
IsStored-skip :
    (h : List WriteRequest) (k : String) (o : Option State) (req : WriteRequest)
    → IsStored h k o
    → (str_eq req.key k && not (is_stale o req.time)) ≡ false
    → IsStored (req ∷ h) k o
IsStored-skip h k none req i e = ground arith
IsStored-skip h k (some s) req (w, (newer, older, split, key, front, back), v, t) e =
    let late : is_later s.time req.time ≡ is_later w.time req.time =
      ap (λ u. is_later u req.time) t in
    (w, (req ∷ newer, older, ap (λ l. req ∷ l) split, key, ground arith, back), v, t)

IsStored-write :
    (m : Storage) (req : WriteRequest) (h : List WriteRequest)
    → ((k : String) → IsStored h k (find k m))
    → (k : String) → IsStored (req ∷ h) k (find k (write m req).0)
unfolding write
IsStored-write m req h i k = elim (Bool-cases (is_stale (find req.key m) req.time)) [
  | inl stale ↦
      let kept : (write m req).0 ≡ m = ground arith in
      rw kept (
        IsStored-skip h k (find k m) req (i k) (
          let same = λ (p : req.key ≡ k). ap (λ j. is_stale (find j m) req.time) p in
          ground (arith, same, eq_iff req.key k)))
  | inr fresh ↦ elim (Bool-cases (str_eq req.key k)) [
    | inl hit ↦
        let now : find k (write m req).0 ≡ some (record { value = req.value; time = req.time }) =
          ground arith in
        let p : req.key ≡ k = (eq_iff req.key k).0 hit in
        let none_above : any (beats k req.time) h ≡ false =
          ap (λ j. any (beats j req.time) h) (sym p)
          ∙ sym (stored-beats h req.key (find req.key m) req.time (i req.key))
          ∙ fresh in
        rw now (req, ([], h, refl, p, refl, none_above), refl, refl)
    | inr miss ↦
        let now : find k (write m req).0 ≡ find k m = ground arith in
        rw now (IsStored-skip h k (find k m) req (i k) (ground arith))
  ]
]

read-IsAnswer :
    (m : Storage) (h : List WriteRequest) (k : String)
    → IsStored h k (find k m)
    → IsAnswer h k (read m k)
unfolding read
read-IsAnswer m h k i = elim (Option-cases (find k m)) [
  | inl missing ↦ inl (ground arith, ground arith)
  | inr (s, found) ↦
      let (w, latest, v, t) : IsStored h k (some s) = subst (IsStored h k) found i in
      inr (ground arith, w, latest, ground arith, ground arith)
]

write-New :
    (m : Storage) (req : WriteRequest) → (write m req).1 ≡ not (is_stale (find req.key m) req.time)
unfolding write
write-New m req = ground arith

serve_from :
    (os : List Operation) (m : Storage) (h : List WriteRequest)
    → ((k : String) → IsStored h k (find k m))
    → IsServed h os (serve m os)
unfolding serve
serve_from [] m h i = tt
serve_from (reads k ∷ os) m h i = (read-IsAnswer m h k (i k), serve_from os m h i)
serve_from (writes req ∷ os) m h i = (
  write-New m req ∙ ap not (stored-beats h req.key (find req.key m) req.time (i req.key)),
  serve_from os (write m req).0 (req ∷ h) (IsStored-write m req h i),
)

-- A server that starts empty replies to any sequence of reads and writes by the writes so far: a
-- read returns the write to its key with the latest time, the last one of those with the same time,
-- or that there is none; and a write is `New` exactly if no earlier write to its key had a later time.
pub serve-IsServed : (os : List Operation) → IsServed [] os (serve [] os)
serve-IsServed os = serve_from os [] [] (λ k. refl)
