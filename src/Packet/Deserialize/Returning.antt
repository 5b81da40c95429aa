-- ===== src/Packet/Deserialize/Returning.antt =====
-- What a function that reads a packet leaves when it returns true, and that it returns: rules for the
-- parts that the functions are made of.
use cheaproute.Prelude.{
  ℕ, ◌≤◌, ◌≡◌, refl, sym, ◌∙◌, ap, Bool, true, false, some, List, [], ◌++◌, append-nil,
  append_assoc, arith, subst, All, IsByte, length, if◌then◌else◌,
}
use cheaproute.JsonReader.Values.{IsNested}
use cheaproute.Packet.Deserialize.Parsing.{
  Platform, Parsing, Result, ok, error, out_of_fuel, undefined, Parser, bind, ◌>>=◌, pure, fails,
  add_prefix, prefixed, current, emit,
}

-- `inet_pton` gives four bytes.
abbrev pub GivesAddresses : Platform → Type 0
GivesAddresses env =
    (str address : List ℕ)
    → env.inet_pton str ≡ some address
    → (length address ≡ 4) × All IsByte address

-- The call returns. If it returns true, it has a result in `Q`, at most `n` bytes are left to read,
-- the modes are nested, and bytes in `G` were appended to the destination.
abbrev pub Ends : {A : Type 0} → (A → Type 0) → (List ℕ → Type 0) → ℕ → List ℕ → Result A → Type 0
Ends Q G n dest (ok a s) =
    Q a
    × (length s.reader.stream ≤ n)
    × IsNested s.reader
    × ((more : List ℕ) × (s.dest ≡ dest ++ more) × G more)
Ends Q G n dest (error e s) = Unit
Ends Q G n dest out_of_fuel = ⊥
Ends Q G n dest undefined = Unit

pub record Returns {A : Type 0} (Q : A → Type 0) (G : List ℕ → Type 0) (p : Parser A) : Type 0 where
  pub run :
      (env : Platform) (s : Parsing)
      → GivesAddresses env
      → IsNested s.reader
      → Ends Q G (length s.reader.stream) s.dest (p env s)

abbrev pub Any : {A : Type 0} → A → Type 0
Any a = Unit

abbrev pub IsEmpty : List ℕ → Type 0
IsEmpty bytes = bytes ≡ []

pub Ends-mono :
    {A : Type 0} (Q : A → Type 0) (G : List ℕ → Type 0) (m n : ℕ) (dest : List ℕ) (r : Result A)
    → m ≤ n
    → Ends Q G m dest r
    → Ends Q G n dest r
Ends-mono Q G m n dest (ok a s) l (q, b, v, g) = (q, omega arith, v, g)
Ends-mono Q G m n dest (error e s) l h = tt
Ends-mono Q G m n dest out_of_fuel l h = h
Ends-mono Q G m n dest undefined l h = tt

-- Behind a part that appends nothing.
pub bind_silent :
    {A B : Type 0} (Q : A → Type 0) (R : B → Type 0) (G : List ℕ → Type 0) (n : ℕ) (dest : List ℕ)
    (r : Result A) (k : A → Parsing → Result B)
    → Ends Q IsEmpty n dest r
    → ((a : A) (s : Parsing)
        → Q a
        → length s.reader.stream ≤ n
        → IsNested s.reader
        → Ends R G (length s.reader.stream) s.dest (k a s))
    → Ends R G n dest (bind r k)
bind_silent Q R G n dest (ok a s) k (q, b, v, (more, e, empty)) f =
    subst (λ d. Ends R G n d (k a s)) (e ∙ ap (λ m. dest ++ m) empty ∙ append-nil dest)
      (Ends-mono R G (length s.reader.stream) n s.dest (k a s) b (f a s q b v))
bind_silent Q R G n dest (error e s) k h f = tt
bind_silent Q R G n dest out_of_fuel k h f = h
bind_silent Q R G n dest undefined k h f = tt

regrow :
    {B : Type 0} (R : B → Type 0) (n : ℕ) (dest more dest' : List ℕ) (r : Result B)
    → dest' ≡ dest ++ more
    → Ends R Any n dest' r
    → Ends R Any n dest r
regrow R n dest more dest' (ok b s) e (q, l, v, (rest, e', g)) =
    (q, l, v, (more ++ rest, e' ∙ ap (λ d. d ++ rest) e ∙ append_assoc dest more rest, tt))
regrow R n dest more dest' (error m s) e h = tt
regrow R n dest more dest' out_of_fuel e h = h
regrow R n dest more dest' undefined e h = tt

-- Behind a part that may append.
pub bind_growing :
    {A B : Type 0} (Q : A → Type 0) (R : B → Type 0) (G : List ℕ → Type 0) (n : ℕ) (dest : List ℕ)
    (r : Result A) (k : A → Parsing → Result B)
    → Ends Q G n dest r
    → ((a : A) (s : Parsing)
        → Q a
        → length s.reader.stream ≤ n
        → IsNested s.reader
        → Ends R Any (length s.reader.stream) s.dest (k a s))
    → Ends R Any n dest (bind r k)
bind_growing Q R G n dest (ok a s) k (q, b, v, (more, e, g)) f =
    regrow R n dest more s.dest (k a s) e
      (Ends-mono R Any (length s.reader.stream) n s.dest (k a s) b (f a s q b v))
bind_growing Q R G n dest (error e s) k h f = tt
bind_growing Q R G n dest out_of_fuel k h f = h
bind_growing Q R G n dest undefined k h f = tt

module _ {A B : Type 0} {Q : A → Type 0} {R : B → Type 0} {G : List ℕ → Type 0} where
  infixl 5 ◌▹◌ ◌▹▹◌
  -- A silent part, then another.
  pub ◌▹◌ :
      {p : Parser A} {k : A → Parser B}
      → Returns Q IsEmpty p
      → ((a : A) → Q a → Returns R G (k a))
      → Returns R G (p >>= k)
  ◌▹◌ {p} {k} h f = record {
    run = λ env s g v.
        bind_silent Q R G (length s.reader.stream) s.dest (p env s) (λ a t. k a env t)
          (h.run env s g v) (λ a t q l w. (f a q).run env t g w);
  }

  pub ◌▹▹◌ :
      {p : Parser A} {k : A → Parser B}
      → Returns Q G p
      → ((a : A) → Q a → Returns R Any (k a))
      → Returns R Any (p >>= k)
  ◌▹▹◌ {p} {k} h f = record {
    run = λ env s g v.
        bind_growing Q R G (length s.reader.stream) s.dest (p env s) (λ a t. k a env t)
          (h.run env s g v) (λ a t q l w. (f a q).run env t g w);
  }

pub nothing_more : (dest : List ℕ) → (more : List ℕ) × (dest ≡ dest ++ more) × IsEmpty more
nothing_more dest = ([], sym (append-nil dest), refl)

-- A test of the reader's state.
pub check-Ends :
    (b : Bool) (s : Parsing) (message : List ℕ)
    → IsNested s.reader
    → Ends Any IsEmpty (length s.reader.stream) s.dest (if b then ok tt s else error message s)
check-Ends true s message v = (tt, omega arith, v, nothing_more s.dest)
check-Ends false s message v = tt

pub pure-Returns : {A : Type 0} {Q : A → Type 0} (a : A) → Q a → Returns Q IsEmpty (pure a)
pure-Returns a q = record { run = λ env s g v. (q, omega arith, v, nothing_more s.dest) }

pub fails-Returns :
    {A : Type 0} {Q : A → Type 0} {G : List ℕ → Type 0} (message : List ℕ)
    → Returns {A = A} Q G (fails message)
fails-Returns message = record { run = λ env s g v. tt }

pub current-Returns : Returns Any IsEmpty current
current-Returns = record { run = λ env s g v. (tt, omega arith, v, nothing_more s.dest) }

pub emit-Returns : {G : List ℕ → Type 0} (bytes : List ℕ) → G bytes → Returns Any G (emit bytes)
emit-Returns bytes h = record { run = λ env s g v. (tt, omega arith, v, (bytes, refl, h)) }

-- What was appended may be forgotten.
forget :
    {A : Type 0} (Q : A → Type 0) (G : List ℕ → Type 0) (n : ℕ) (dest : List ℕ) (r : Result A)
    → Ends Q G n dest r
    → Ends Q Any n dest r
forget Q G n dest (ok a s) (q, l, v, (more, e, g)) = (q, l, v, (more, e, tt))
forget Q G n dest (error e s) h = tt
forget Q G n dest out_of_fuel h = h
forget Q G n dest undefined h = tt

pub growing :
    {A : Type 0} {Q : A → Type 0} {G : List ℕ → Type 0} {p : Parser A}
    → Returns Q G p
    → Returns Q Any p
growing {Q} {G} {p} h = record {
  run = λ env s g v. forget Q G (length s.reader.stream) s.dest (p env s) (h.run env s g v);
}

weaken :
    {A : Type 0} (Q R : A → Type 0) (G : List ℕ → Type 0) (n : ℕ) (dest : List ℕ) (r : Result A)
    → ((a : A) → Q a → R a)
    → Ends Q G n dest r
    → Ends R G n dest r
weaken Q R G n dest (ok a s) f (q, l, v, g) = (f a q, l, v, g)
weaken Q R G n dest (error e s) f h = tt
weaken Q R G n dest out_of_fuel f h = h
weaken Q R G n dest undefined f h = tt

pub weaker :
    {A : Type 0} {Q R : A → Type 0} {G : List ℕ → Type 0} {p : Parser A}
    → ((a : A) → Q a → R a)
    → Returns Q G p
    → Returns R G p
weaker {Q} {R} {G} {p} f h = record {
  run = λ env s g v. weaken Q R G (length s.reader.stream) s.dest (p env s) f (h.run env s g v);
}

pub if-Returns :
    {A : Type 0} {Q : A → Type 0} {G : List ℕ → Type 0} (b : Bool) {p q : Parser A}
    → Returns Q G p
    → Returns Q G q
    → Returns Q G (if b then p else q)
if-Returns true h k = h
if-Returns false h k = k

prefixed-Ends :
    {A : Type 0} (Q : A → Type 0) (G : List ℕ → Type 0) (n : ℕ) (dest context : List ℕ)
    (r : Result A)
    → Ends Q G n dest r
    → Ends Q G n dest (add_prefix context r)
prefixed-Ends Q G n dest context (ok a s) h = h
prefixed-Ends Q G n dest context (error e s) h = tt
prefixed-Ends Q G n dest context out_of_fuel h = h
prefixed-Ends Q G n dest context undefined h = tt

pub prefixed-Returns :
    {A : Type 0} {Q : A → Type 0} {G : List ℕ → Type 0} (context : List ℕ) {p : Parser A}
    → Returns Q G p
    → Returns Q G (prefixed context p)
prefixed-Returns {Q} {G} context {p} h = record {
  run = λ env s g v.
      prefixed-Ends Q G (length s.reader.stream) s.dest context (p env s) (h.run env s g v);
}
