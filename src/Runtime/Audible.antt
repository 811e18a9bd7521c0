-- ===== src/Runtime/Audible.antt =====
-- How many streams a station has, and how many of them are heard.
use snowcast.Prelude.{
  ℕ, zero, suc, Bool-cases, inl, inr, ◌+◌, ◌≤◌, ◌<◌, ◌≡◌, refl, Text, Bool, false, List, [], ◌∷◌,
  ◌++◌, ◌==◌, ◌&&◌, if◌then◌else◌, arith,
}
use snowcast.Runtime.Serve.{Stream, set, start_streams}

-- The streams of a station: all of them, which announce, and those whose packets go out.
abbrev pub streams_of : ℕ → List Stream → ℕ
streams_of i [] = 0
streams_of i (s ∷ ss) = let rest = streams_of i ss in if s.station == i then rest + 1 else rest

abbrev pub audible : (ℕ → Bool) → ℕ → List Stream → ℕ
audible is_open i [] = 0
audible is_open i (s ∷ ss) =
    let rest = audible is_open i ss in if s.station == i && is_open s.socket then rest + 1 else rest

pub streams_of-append :
    (i : ℕ) (ss ts : List Stream) → streams_of i (ss ++ ts) ≡ streams_of i ss + streams_of i ts
streams_of-append i [] ts = omega arith
streams_of-append i (s ∷ ss) ts = ground (arith, streams_of-append i ss ts)

pub audible-append :
    (f : ℕ → Bool) (i : ℕ) (ss ts : List Stream)
    → audible f i (ss ++ ts) ≡ audible f i ss + audible f i ts
audible-append f i [] ts = omega arith
audible-append f i (s ∷ ss) ts = ground (arith, audible-append f i ss ts)

-- Whether there is a file for a station and it opens.
abbrev pub has_file : (opens : Text → Bool) → List Text → ℕ → Bool
has_file opens [] i = false
has_file opens (path ∷ files) zero = opens path
has_file opens (path ∷ files) (suc i) = has_file opens files i

streams_of-earlier :
    (opens : Text → Bool) (i j : ℕ) (files : List Text) (socket : ℕ)
    → i < j
    → streams_of i (start_streams opens j files socket) ≡ 0
unfolding start_streams
streams_of-earlier opens i j [] socket h = refl
streams_of-earlier opens i j (path ∷ files) socket h =
    ground (arith, h, streams_of-earlier opens i (j + 1) files socket (omega (arith, h)))

-- One stream for each file that opens.
pub streams_of-start :
    (opens : Text → Bool) (k j : ℕ) (files : List Text) (socket : ℕ)
    → streams_of (j + k) (start_streams opens j files socket)
      ≡ (if has_file opens files k then 1 else 0)
unfolding start_streams
streams_of-start opens k j [] socket = refl
streams_of-start opens zero j (path ∷ files) socket =
    ground (arith, streams_of-earlier opens (j + 0) (j + 1) files socket (omega arith))
streams_of-start opens (suc k) j (path ∷ files) socket =
    let over : j + suc k ≡ j + 1 + k = omega arith in
    let rest = streams_of-start opens k (j + 1) files socket in rw over (ground (arith, rest))

pub audible-start :
    (opens : Text → Bool) (f : ℕ → Bool) (i j : ℕ) (files : List Text) (socket : ℕ)
    → audible f i (start_streams opens j files socket)
      ≤ streams_of i (start_streams opens j files socket)
unfolding start_streams
audible-start opens f i j [] socket = omega arith
audible-start opens f i j (path ∷ files) socket =
    ground (arith, audible-start opens f i (j + 1) files socket)

pub audible-closed :
    (f : ℕ → Bool) (i : ℕ) (ss : List Stream) → ((p : ℕ) → f p ≡ false) → audible f i ss ≡ 0
audible-closed f i [] closed = refl
audible-closed f i (s ∷ ss) closed = ground (arith, closed s.socket, audible-closed f i ss closed)

-- A socket that no stream has makes none audible; one that is closed makes none audible.
abbrev pub AreBelow : ℕ → List Stream → Type 0
AreBelow n [] = Unit
AreBelow n (s ∷ ss) = (s.socket < n) × AreBelow n ss

pub audible-set_new :
    (f : ℕ → Bool) (n i : ℕ) (b : Bool) (ss : List Stream)
    → AreBelow n ss
    → audible (set f n b) i ss ≡ audible f i ss
audible-set_new f n i b [] h = refl
audible-set_new f n i b (s ∷ ss) h = ground (arith, h, audible-set_new f n i b ss h.1)

pub audible-set-false :
    (f : ℕ → Bool) (p i : ℕ) (ss : List Stream) → audible (set f p false) i ss ≤ audible f i ss
audible-set-false f p i [] = omega arith
audible-set-false f p i (s ∷ ss) = ground (arith, audible-set-false f p i ss)

pub AreBelow-more : (n : ℕ) (ss : List Stream) → AreBelow n ss → AreBelow (n + 1) ss
AreBelow-more n [] h = tt
AreBelow-more n (s ∷ ss) h = (omega (arith, h.0), AreBelow-more n ss h.1)

pub AreBelow-append :
    (n : ℕ) (ss ts : List Stream) → AreBelow n ss → AreBelow n ts → AreBelow n (ss ++ ts)
AreBelow-append n [] ts h k = k
AreBelow-append n (s ∷ ss) ts h k = (h.0, AreBelow-append n ss ts h.1 k)

pub AreBelow-start :
    (opens : Text → Bool) (n j : ℕ) (files : List Text)
    → AreBelow (n + 1) (start_streams opens j files n)
unfolding start_streams
AreBelow-start opens n j [] = tt
AreBelow-start opens n j (path ∷ files) = elim (Bool-cases (opens path)) [
  | inl found ↦ rw found (omega arith, AreBelow-start opens n (j + 1) files)
  | inr missing ↦ rw missing (AreBelow-start opens n (j + 1) files)
]
