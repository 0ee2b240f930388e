-- ===== src/Exchange/Waits.antt =====
-- The answers of the server, and the requests that wait for them: src/message.c and src/network.c.
use libpomelo.Common.{
  ℕ, ◌≡◌, refl, ◌∙◌, Bool, true, false, Option, none, some, List, [], ◌∷◌, ◌++◌, if◌then◌else◌,
}
use libpomelo.Common.Bytes.{same_str}
use libpomelo.Common.Groups.{groups}
use libpomelo.Package.{Package}
use libpomelo.Client.{Request, Call, request_done}
use libpomelo.Client.Drops.{if-else}

-- An answer: the request that it is for, its number, and its JSON text, which begins with b.
pub record Answer : Type 0 where
  pub request : Request
  pub id : ℕ
  pub b : ℕ
  pub text : List ℕ

-- The message of an answer: the flag, the number in groups of seven bits, and the text.
abbrev pub answer_bytes : Answer → List ℕ
answer_bytes a = 4 ∷ (groups 4 a.id ++ a.b ∷ a.text)

-- It is sent as a data package.
abbrev pub answer_package : Answer → Package
answer_package a = record { type = 4; bytes = answer_bytes a }

-- The number is that of no answer in the list.
abbrev pub Apart : (ℕ → List ℕ) → ℕ → List Answer → Type 0
Apart print id [] = Unit {0}
Apart print id (a ∷ more) = (same_str (print id) (print a.id) ≡ false) × Apart print id more

-- The requests by their keys, which each answer's request is one of, and another than those before it.
abbrev pub AllWait : (ℕ → List ℕ) → (List ℕ → Option Request) → List Answer → Type 0
AllWait print waiting [] = Unit {0}
AllWait print waiting (a ∷ more) =
    (waiting (print a.id) ≡ some a.request) × Apart print a.id more × AllWait print waiting more

-- The requests that still wait behind the answers.
abbrev pub still : (ℕ → List ℕ) → List Answer → (List ℕ → Option Request) → List ℕ → Option Request
still print [] waiting k = waiting k
still print (a ∷ more) waiting k =
    if same_str (print a.id) k then none else still print more waiting k

none_first :
    {A : Type 0} (b b' : Bool) (x y : Option A)
    → x ≡ (if b then none else y)
    → (if b' then none else x) ≡ (if b then none else if b' then none else y)
none_first true true x y e = refl
none_first true false x y e = e
none_first false true x y e = refl
none_first false false x y e = e

-- One request less before the answers or behind them.
pub still-removed :
    (print : ℕ → List ℕ) (answers : List Answer) (id : ℕ) (f g : List ℕ → Option Request)
    → ((k : List ℕ) → g k ≡ (if same_str (print id) k then none else f k))
    → (k : List ℕ)
    → still print answers g k ≡ (if same_str (print id) k then none else still print answers f k)
still-removed print [] id f g e k = e k
still-removed print (a ∷ more) id f g e k =
    none_first (same_str (print id) k) (same_str (print a.id) k) _ _
      (still-removed print more id f g e k)

pub AllWait-removed :
    (print : ℕ → List ℕ) (answers : List Answer) (id : ℕ) (f g : List ℕ → Option Request)
    → ((k : List ℕ) → g k ≡ (if same_str (print id) k then none else f k))
    → Apart print id answers
    → AllWait print f answers
    → AllWait print g answers
AllWait-removed print [] id f g e apart w = tt
AllWait-removed print (a ∷ more) id f g e (other, apart) (waits, later, w) = (
  e (print a.id) ∙ if-else _ _ _ other ∙ waits,
  later,
  AllWait-removed print more id f g e apart w,
)

abbrev pub answered : Answer → Call
answered a = request_done a.request.id true
