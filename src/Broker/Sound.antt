-- ===== src/Broker/Sound.antt =====
-- What every handler of the broker keeps: the map of the waiting clients holds an id once, and every
-- queue is in order of priority. A rule for each way to build a step.
pub mod Links
pub mod Lines
pub mod Requests
pub mod Workers
pub mod Answers
pub mod Commands
pub mod Cleaning
pub mod Loops
pub mod Polls
pub mod Steps
pub mod Once
use ijson.Prelude.{
  ℕ, ◌≡◌, refl, Bool, true, false, List, [], ◌∷◌, Bytes, if◌then◌else◌, Option, none, some, Error,
  invalid_data, no_data, exception, Result,
}
use ijson.Broker.{
  Connect, Message, QueueLine, Server, Run, ok, thrown, fault, hang, M, pure, throw, skip, gets,
  modify, connect, update, lift, catch_invalid, noexcept, and_then, ◌>>=◌, ◌>>◌,
}
use ijson.Broker.Waiting.{IsMap}
use ijson.Broker.Priority.{IsOrdered}

-- Every queue of the line is in order of priority.
abbrev pub IsLine : QueueLine → Type 0
IsLine l = (r : ℕ) → IsOrdered (l.queue r).clients

abbrev pub AreLines : List (Option QueueLine) → Type 0
AreLines [] = Unit {0}
AreLines (none ∷ ls) = AreLines ls
AreLines (some l ∷ ls) = IsLine l × AreLines ls

pub record IsSound (s : Server) : Type 0 where
  pub waiting : IsMap s.wait_response
  pub lines : AreLines s.queue_list

-- The state is sound after a return and after an exception, and a value that is returned has `Q`.
abbrev pub Ends : {A : Type 0} → (A → Type 0) → Run A → Type 0
Ends Q (ok a t) = IsSound t × Q a
Ends Q (thrown e t) = IsSound t
Ends Q fault = Unit {0}
Ends Q hang = Unit {0}

pub record Keeps {A : Type 0} (Q : A → Type 0) (m : M A) : Type 0 where
  pub at : (s : Server) → IsSound s → Ends Q (m s)

abbrev pub Any : {A : Type 0} → A → Type 0
Any _ = Unit {0}

Ends-if :
    {A : Type 0} (Q : A → Type 0) (b : Bool) (x y : Run A)
    → Ends Q x
    → Ends Q y
    → Ends Q (if b then x else y)
Ends-if Q true x y h k = h
Ends-if Q false x y h k = k

module _ {A : Type 0} {Q : A → Type 0} where
  pub Keeps-pure : (a : A) → Q a → Keeps Q (pure a)
  unfolding pure
  Keeps-pure a q = record { at = λ s h. (h, q) }

  pub Keeps-throw : (e : Error) → Keeps Q (throw {A = A} e)
  unfolding throw
  Keeps-throw e = record { at = λ s h. h }

  pub Keeps-option :
      {B : Type 0} (o : Option B) (m : M A) (f : B → M A)
      → Keeps Q m
      → ((b : B) → Keeps Q (f b))
      → Keeps Q (elim o as (λ _. M A) [ none ↦ m | some b ↦ f b ])
  Keeps-option none m f h k = h
  Keeps-option (some b) m f h k = k b

  pub Keeps-list :
      {B : Type 0} (l : List B) (m : M A) (f : B → List B → M A)
      → Keeps Q m
      → ((b : B) (bs : List B) → Keeps Q (f b bs))
      → Keeps Q (elim l as (λ _. M A) [ [] ↦ m | (b ∷ bs) ↦ f b bs ])
  Keeps-list [] m f h k = h
  Keeps-list (b ∷ bs) m f h k = k b bs

  pub Keeps-if : (b : Bool) (m n : M A) → Keeps Q m → Keeps Q n → Keeps Q (if b then m else n)
  Keeps-if true m n h k = h
  Keeps-if false m n h k = k

pub Keeps-skip : Keeps Any skip
unfolding skip
Keeps-skip = record { at = λ s h. (h, tt) }

pub Keeps-gets : {A : Type 0} (f : Server → A) → Keeps Any (gets f)
unfolding gets
Keeps-gets f = record { at = λ s h. (h, tt) }

pub Keeps-connect : (c : ℕ) → Keeps Any (connect c)
unfolding connect
Keeps-connect c = record { at = λ s h. (h, tt) }

pub Keeps-update : (c : ℕ) (f : Connect → Connect) → Keeps Any (update c f)
unfolding update
Keeps-update c f = record { at = λ s h. (record { waiting = h.waiting; lines = h.lines }, tt) }

pub Keeps-lift : {A : Type 0} (r : Result A) → Keeps Any (lift r)
unfolding lift
Keeps-lift (Result.ok a) = record { at = λ s h. (h, tt) }
Keeps-lift (Result.err e) = record { at = λ s h. h }

-- A change of the state that keeps the map and the lines.
pub Keeps-modify :
    (f : Server → Server)
    → ((s : Server) → (f s).wait_response ≡ s.wait_response)
    → ((s : Server) → (f s).queue_list ≡ s.queue_list)
    → Keeps Any (modify f)
unfolding modify
Keeps-modify f w l = record {
  at = λ s h. (record { waiting = rw (w s) h.waiting; lines = rw (l s) h.lines }, tt);
}

module _ {A B : Type 0} {P : A → Type 0} {Q : B → Type 0} where
  pub Keeps-bind :
      (m : M A) (f : A → M B) → Keeps P m → ((a : A) → P a → Keeps Q (f a)) → Keeps Q (m >>= f)
  unfolding ◌>>=◌
  Keeps-bind m f km kf = record { at = λ s h. after (m s) (km.at s h) }
    where
      after : (r : Run A) → Ends P r → Ends Q (and_then r f)
      after (ok a t) (h, p) = (kf a p).at t h
      after (thrown e t) h = h
      after fault h = tt
      after hang h = tt

module _ {A B : Type 0} {Q : B → Type 0} where
  pub Keeps-next :
      (m : M A) (f : A → M B) → Keeps Any m → ((a : A) → Keeps Q (f a)) → Keeps Q (m >>= f)
  Keeps-next m f km kf = Keeps-bind m f km (λ a _. kf a)

  pub Keeps-then : (m : M A) (n : M B) → Keeps Any m → Keeps Q n → Keeps Q (m >> n)
  unfolding ◌>>◌ ◌>>=◌
  Keeps-then m n km kn = Keeps-bind m (λ _. n) km (λ _ _. kn)

-- A weaker postcondition.
pub Keeps-less :
    {A : Type 0} {P Q : A → Type 0} (m : M A) → ((a : A) → P a → Q a) → Keeps P m → Keeps Q m
Keeps-less m w k = record { at = λ s h. weaken (m s) w (k.at s h) }
  where
    weaken :
        {A : Type 0} {P Q : A → Type 0} (r : Run A) → ((a : A) → P a → Q a) → Ends P r → Ends Q r
    weaken (ok a t) w h = (h.0, w a h.1)
    weaken (thrown e t) w h = h
    weaken fault w h = tt
    weaken hang w h = tt

pub Keeps-catch : (m h : M (Unit {0})) → Keeps Any m → Keeps Any h → Keeps Any (catch_invalid m h)
unfolding catch_invalid
Keeps-catch m h km kh = record { at = λ s k. after (m s) (km.at s k) }
  where
    after :
        (r : Run (Unit {0}))
        → Ends Any r
        → Ends Any (elim r [
          | ok a t ↦ ok a t
          | thrown invalid_data t ↦ h t
          | thrown e t ↦ thrown e t
          | fault ↦ fault
          | hang ↦ hang
        ])
    after (ok a t) k = k
    after (thrown invalid_data t) k = kh.at t k
    after (thrown no_data t) k = k
    after (thrown exception t) k = k
    after fault k = tt
    after hang k = tt

pub Keeps-noexcept : (m : M (Unit {0})) → Keeps Any m → Keeps Any (noexcept m)
unfolding noexcept
Keeps-noexcept m km = record { at = λ s k. after (m s) (km.at s k) }
  where
    after :
        (r : Run (Unit {0}))
        → Ends Any r
        → Ends Any (elim r [ ok a t ↦ ok a t | thrown e t ↦ fault | fault ↦ fault | hang ↦ hang ])
    after (ok a t) k = k
    after (thrown e t) k = tt
    after fault k = tt
    after hang k = tt

pub same : {A : Type 0} (x : A) → x ≡ x
same x = refl

pub ruleset keeps_rules = (
  same, Keeps-modify, Keeps-pure, Keeps-throw, Keeps-if, Keeps-option, Keeps-list, Keeps-skip,
  Keeps-gets, Keeps-connect, Keeps-update, Keeps-lift, Keeps-next, Keeps-then, Keeps-catch,
  Keeps-noexcept,
)
