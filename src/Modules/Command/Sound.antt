-- ===== src/Modules/Command/Sound.antt =====
-- What a parsed command says of its text, and the texts that parse.
use mathlib.Core.Path.{subst}
use test_bot.Base.{
  ℕ, ◌≡◌, refl, sym, ◌⊎◌, inl, inr, ◌≢◌, ap, ◌∙◌, Bool, true, false, some, List, [], ◌∷◌, ◌++◌, map,
}
use test_bot.Base.{
  ◌==◌, nat_eq, list_eq, contains, length, drop, is_empty_ne, arith, Bool-cases, All,
}
use test_bot.Text.{Text, strip, lower, starts_with, partition, Free}
use test_bot.Env.{Env}
use test_bot.Modules.Command.{
  CommandInvocation, command_prefixes, find_invocation, parse_command_invocation,
}

starts_with-drop :
    (s prefix : Text) → starts_with s prefix ≡ true → prefix ++ drop (length prefix) s ≡ s
unfolding starts_with nat_eq
starts_with-drop s [] h = refl
starts_with-drop [] (p ∷ ps) h = cc
starts_with-drop (c ∷ cs) (p ∷ ps) h = ground (arith, starts_with-drop cs ps)

starts_with-append : (prefix s : Text) → starts_with (prefix ++ s) prefix ≡ true
unfolding starts_with nat_eq
starts_with-append [] [] = refl
starts_with-append [] (c ∷ s) = refl
starts_with-append (p ∷ ps) s = ground (arith, starts_with-append ps s)

drop-append : (prefix s : Text) → drop (length prefix) (prefix ++ s) ≡ s
drop-append [] s = refl
drop-append (p ∷ ps) s = drop-append ps s

-- A text is what stands before the first separator, the separator and the rest; or it has none.
partition_split :
    (c : ℕ) (s : Text)
    → (s ≡ (partition c s).before ++ (c ∷ (partition c s).after))
      ⊎ ((s ≡ (partition c s).before) × ((partition c s).after ≡ []))
unfolding partition nat_eq
partition_split c [] = inr (refl, refl)
partition_split c (d ∷ ds) = ground (arith, partition_split c ds)

partition-Free : (c : ℕ) (s : Text) → Free (λ d. d == c) (partition c s).before
unfolding partition nat_eq
partition-Free c [] = tt
partition-Free c (d ∷ ds) = ground (arith, partition-Free c ds)

partition-append :
    (c : ℕ) (s t : Text)
    → Free (λ d. d == c) s
    → partition c (s ++ (c ∷ t)) ≡ record { before = s; found = true; after = t }
unfolding partition nat_eq
partition-append c [] t h = ground arith
partition-append c (d ∷ ds) t (k, h) = ground (arith, partition-append c ds t h)

-- How an invocation was written: a known prefix, a command without spaces, and, behind the first
-- space, the argument.
pub record Reads (prefixes aliases : List Text) (s : Text) (inv : CommandInvocation) : Type 0 where
  pub command : Text
  pub rest : Text
  pub known_prefix : contains prefixes inv.prefix ≡ true
  pub written :
      (s ≡ inv.prefix ++ (command ++ (b' ' ∷ rest))) ⊎ ((s ≡ inv.prefix ++ command) × (rest ≡ []))
  pub no_space : Free (λ d. d == b' ') command
  pub name_text : inv.name ≡ lower (strip command)
  pub known_name : contains aliases inv.name ≡ true
  pub argument_text : inv.argument ≡ strip rest

module _ (s prefix : Text) where
  abbrev parts : record { before : Text; found : Bool; after : Text }
  parts = partition b' ' (drop (length prefix) s)

  abbrev read : CommandInvocation
  read = record { prefix = prefix; name = lower (strip parts.before); argument = strip parts.after }

module _ (prefixes aliases : List Text) (s prefix : Text) (inv : CommandInvocation) where
  read-Reads :
      contains prefixes prefix ≡ true
      → starts_with s prefix ≡ true
      → contains aliases (read s prefix).name ≡ true
      → read s prefix ≡ inv
      → Reads prefixes aliases s inv
  read-Reads known start name e =
      let whole = starts_with-drop s prefix start in
      subst (Reads prefixes aliases s) e (record {
        command = (parts s prefix).before;
        rest = (parts s prefix).after;
        known_prefix = known;
        written = elim (partition_split b' ' (drop (length prefix) s)) [
          | inl p ↦ inl (sym whole ∙ ap (λ t. prefix ++ t) p)
          | inr p ↦ inr (sym whole ∙ ap (λ t. prefix ++ t) p.0, p.1)
        ];
        no_space = partition-Free b' ' (drop (length prefix) s);
        name_text = refl;
        known_name = name;
        argument_text = refl;
      })

Reads-cons :
    (p : Text) (ps aliases : List Text) (s : Text) (inv : CommandInvocation)
    → Reads ps aliases s inv
    → Reads (p ∷ ps) aliases s inv
Reads-cons p ps aliases s inv r = record {
  command = r.command;
  rest = r.rest;
  known_prefix = ground (arith, r.known_prefix);
  written = r.written;
  no_space = r.no_space;
  name_text = r.name_text;
  known_name = r.known_name;
  argument_text = r.argument_text;
}

find_invocation-Reads :
    (prefixes : List Text) (s : Text) (aliases : List Text) (inv : CommandInvocation)
    → find_invocation prefixes s aliases ≡ some inv
    → Reads prefixes aliases s inv
unfolding find_invocation
find_invocation-Reads [] s aliases inv h = cc
find_invocation-Reads (p ∷ ps) s aliases inv h =
    let later = λ (k : find_invocation ps s aliases ≡ some inv).
      Reads-cons p ps aliases s inv (find_invocation-Reads ps s aliases inv k) in
    elim (Bool-cases (starts_with s p)) [
      | inr differs ↦ later (rw differs at h)
      | inl starts ↦ elim (Bool-cases (contains aliases (read s p).name)) [
        | inr unknown ↦ later (rw unknown at rw starts at h)
        | inl known ↦ read-Reads (p ∷ ps) aliases s p inv (ground arith) starts known (ground arith)
      ]
    ]

-- Every parsed command was written in the stripped text as a configured prefix, an alias in any
-- case and, after the first space, the argument.
pub parse_command_invocation-Reads :
    (env : Env) (text : Text) (aliases : List Text) (inv : CommandInvocation)
    → parse_command_invocation env text aliases ≡ some inv
    → Reads (command_prefixes env) (map lower aliases) (strip text) inv
unfolding parse_command_invocation
parse_command_invocation-Reads env text aliases inv h =
    find_invocation-Reads (command_prefixes env) (strip text) (map lower aliases) inv (ground arith)

find_invocation-skip :
    (skipped prefixes aliases : List Text) (s : Text)
    → All (λ q. starts_with s q ≡ false) skipped
    → find_invocation (skipped ++ prefixes) s aliases ≡ find_invocation prefixes s aliases
unfolding find_invocation
find_invocation-skip [] prefixes aliases s h = refl
find_invocation-skip (q ∷ skipped) prefixes aliases s (h, hs) =
    rw h (find_invocation-skip skipped prefixes aliases s hs)

find_invocation-written :
    (prefix command rest : Text) (prefixes aliases : List Text)
    → Free (λ d. d == b' ') command
    → contains aliases (lower (strip command)) ≡ true
    → find_invocation (prefix ∷ prefixes) (prefix ++ (command ++ (b' ' ∷ rest))) aliases
      ≡ some (record { prefix = prefix; name = lower (strip command); argument = strip rest })
unfolding find_invocation
find_invocation-written prefix command rest prefixes aliases free known =
    rw (starts_with-append, drop-append, partition-append b' ' command rest free) (rw known)

-- A text without blanks at its ends that is written as a configured prefix, an alias in any case,
-- a space and more parses to that prefix, the alias in lower case and the rest without blanks at
-- its ends, if no prefix that is configured earlier begins the text.
pub parse_command_invocation-written :
    (env : Env) (aliases earlier later : List Text) (prefix command rest : Text)
    → command_prefixes env ≡ earlier ++ (prefix ∷ later)
    → All (λ q. starts_with (prefix ++ (command ++ (b' ' ∷ rest))) q ≡ false) earlier
    → Free (λ d. d == b' ') command
    → contains (map lower aliases) (lower (strip command)) ≡ true
    → (prefix ++ (command ++ (b' ' ∷ rest))) ≢ []
    → strip (prefix ++ (command ++ (b' ' ∷ rest))) ≡ prefix ++ (command ++ (b' ' ∷ rest))
    → parse_command_invocation env (prefix ++ (command ++ (b' ' ∷ rest))) aliases
      ≡ some (record { prefix = prefix; name = lower (strip command); argument = strip rest })
unfolding parse_command_invocation
parse_command_invocation-written env aliases earlier later prefix command rest order skip free known
      full bare =
    rw (bare, is_empty_ne (prefix ++ (command ++ (b' ' ∷ rest))) full, order)
      (find_invocation-skip earlier (prefix ∷ later) (map lower aliases) _ skip
        ∙ find_invocation-written prefix command rest later (map lower aliases) free known)
