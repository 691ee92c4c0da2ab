-- ===== src/Options/Threads.antt =====
-- What the options of src/main.cpp let through to the server.
use ijson.Prelude.{
  ℕ, ◌≡◌, refl, ◌≤◌, subst, sym, Bool, true, false, List, [], ◌∷◌, Bytes, text, if◌then◌else◌,
  arith, Error, Result,
}
use ijson.Prelude.Int.{ℤ, pos, negsuc}
use ijson.Slice.{equal_text, is_empty}
use ijson.Options.{
  Options, Outcome, start, exit, uncaught, default_options, with_host, host_option, log_option,
  filter_option, threads_value, bad_threads, parse_options, started_threads,
}

-- The number of threads is in the range, and there is a host.
abbrev Fits : Options → Type 0
Fits o = (bad_threads o.threads ≡ false) × (is_empty o.host ≡ false)

-- What starts fits.
record Good (x : Outcome) : Type 0 where
  at : (o : Options) → x ≡ start o → Fits o

Good-start : (o : Options) → Fits o → Good (start o)
Good-start o h = record { at = λ p e. grind arith }

Good-exit : (n : ℕ) → Good (exit n)
Good-exit n = record { at = λ p e. cc }

Good-uncaught : (x : Error) → Good (uncaught x)
Good-uncaught x = record { at = λ p e. cc }

Good-if : (b : Bool) (x y : Outcome) → Good x → Good y → Good (if b then x else y)
Good-if true x y h k = h
Good-if false x y h k = k

Good-guard : (b : Bool) (y : Outcome) → (b ≡ false → Good y) → Good (if b then exit 1 else y)
Good-guard true y k = Good-exit 1
Good-guard false y k = k refl

-- A way for an option that is read, and one for a value that cannot be read.
Good-result :
    (r : Result Options) (f : Options → Outcome) (g : Error → Outcome)
    → ((p : Options) → r ≡ Result.ok p → Good (f p))
    → ((e : Error) → Good (g e))
    → Good (elim r as (λ _. Outcome) [ Result.ok p ↦ f p | Result.err e ↦ g e ])
Good-result (Result.ok p) f g h k = h p refl
Good-result (Result.err e) f g h k = k e

named : (s : Bytes) → is_empty (if is_empty s then text "127.0.0.1" else s) ≡ false
unfolding is_empty
named [] = refl
named (a ∷ s) = refl

with_host-Fits : (o : Options) → bad_threads o.threads ≡ false → Fits (with_host o)
with_host-Fits o h = (h, named o.host)

host_option-threads :
    (o p : Options) (value : Bytes) → host_option o value ≡ Result.ok p → p.threads ≡ o.threads
unfolding host_option
host_option-threads o p value e = grind arith

log_option-threads :
    (o p : Options) (value : Bytes) → log_option o value ≡ Result.ok p → p.threads ≡ o.threads
unfolding log_option
log_option-threads o p value e = grind arith

filter_option-threads :
    (inet_addr : Bytes → ℕ) (o p : Options) (value : Bytes)
    → filter_option inet_addr o value ≡ Result.ok p
    → p.threads ≡ o.threads
unfolding filter_option
filter_option-threads inet_addr o p value e = grind arith

Good-parse :
    (inet_addr : Bytes → ℕ) (o : Options) (args : List Bytes)
    → bad_threads o.threads ≡ false
    → Good (parse_options inet_addr o args)
unfolding parse_options
Good-parse inet_addr o [] h = Good-start _ (with_host-Fits o h)
Good-parse inet_addr o (s ∷ []) h = Good-if (equal_text s (text "--host")) _ _ (Good-exit 1) (
    Good-if (equal_text s (text "--filter")) _ _ (Good-exit 1) (
      Good-if (equal_text s (text "--log")) _ _ (Good-exit 1) (
        Good-if (equal_text s (text "--help")) _ _ (Good-exit 0) (
          Good-if (equal_text s (text "--jsonrpc2")) _ _
            (Good-start (with_host (record o { jsonrpc2 = true }))
              (with_host-Fits (record o { jsonrpc2 = true }) h))
            (Good-if (equal_text s (text "--version")) _ _ (Good-exit 0) (Good-exit 1))))))
Good-parse inet_addr o (s ∷ next ∷ args) h =
    let go = λ (p : Options) (e : p.threads ≡ o.threads).
      Good-parse inet_addr p args (subst (λ n. bad_threads n ≡ false) (sym e) h) in
    Good-if (equal_text s (text "--host")) _ _
      (Good-result (host_option o next) _ _ (λ p e. go p (host_option-threads o p next e))
        (λ e. Good-exit 1))
      (Good-if (equal_text s (text "--filter")) _ _
        (Good-result (filter_option inet_addr o next) _ _
          (λ p e. go p (filter_option-threads inet_addr o p next e)) Good-uncaught)
        (Good-if (equal_text s (text "--log")) _ _
          (Good-result (log_option o next) _ _ (λ p e. go p (log_option-threads o p next e))
            (λ e. Good-exit 1))
          (Good-if (equal_text s (text "--help")) _ _ (Good-exit 0) (
            Good-if (equal_text s (text "--jsonrpc2")) _ _
              (Good-parse inet_addr (record o { jsonrpc2 = true }) (next ∷ args) h)
              (Good-if (equal_text s (text "--version")) _ _ (Good-exit 0) (
                Good-if (equal_text s (text "--threads")) _ _
                  (Good-guard (bad_threads (threads_value next)) _
                    (λ e. Good-parse inet_addr (record o { threads = threads_value next }) args e))
                  (Good-exit 1)))))))

started_threads-bounds :
    (n : ℤ) → bad_threads n ≡ false → (1 ≤ started_threads n) × (started_threads n ≤ 32)
unfolding started_threads
started_threads-bounds (negsuc n) h = ground arith
started_threads-bounds (pos n) h = ground arith

-- Whatever the arguments, options that start the server give it 1 to 32 threads and a host.
pub parse_options-start :
    (inet_addr : Bytes → ℕ) (args : List Bytes) (o : Options)
    → parse_options inet_addr default_options args ≡ start o
    → (1 ≤ started_threads o.threads) × (started_threads o.threads ≤ 32) × (is_empty o.host ≡ false)
parse_options-start inet_addr args o e =
    let fits = (Good-parse inet_addr default_options args refl).at o e in
    let bounds = started_threads-bounds o.threads fits.0 in (bounds.0, bounds.1, fits.1)
