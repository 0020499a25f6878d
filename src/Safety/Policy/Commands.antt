-- ===== src/Safety/Policy/Commands.antt =====
-- Which commands the policy (minicodex/agent/safety/safety.py) lets through.
use mini_codex.Common.{
  ◌≡◌, refl, ap, ◌∙◌, Bool, true, false, not, ◌&&◌, ◌||◌, Option, none, some, List, [], ◌∷◌, arith,
  Text, codes, same, same_iff, strip, is_empty, any, all, drop, is_some, if◌then◌else◌, Bool-cases,
  Option-cases, inl, inr,
}
use mini_codex.Safety.Rules.{
  safe, caution, blocked, Rule, git_mutation, git_reference_mutation, network_access,
  dependency_install, command_safe, decided_command, SafetyDecision, Arguments, Library, is_in,
  rule_of, blocked_executables, network_executables, git_mutating_subcommands, destructive,
  skip_options,
}
use mini_codex.Safety.Policy.{
  command_segments, executable_name, assess_git_tokens, assess_segment, assess_segments,
  command_guard, assess_whole, assess_command,
}

abbrev pub verdict : Option SafetyDecision → Option Bool
verdict none = none
verdict (some d) = some d.allowed

three :
    (a b c : Bool) (d e : SafetyDecision)
    → d.allowed ≡ false
    → e.allowed ≡ false
    → verdict (if a then some d else if b then some e else if c then some e else none)
      ≡ (if a || b || c then some false else none)
three true b c d e h k = ap some h
three false true c d e h k = ap some k
three false false true d e h k = ap some k
three false false false d e h k = refl

abbrev is_network_name : Text → Bool
is_network_name e = is_in network_executables e

network_names :
    (e : Text)
    → is_network_name e ≡ true
    → (is_some (rule_of blocked_executables e) ≡ false) × (same e (codes "git") ≡ false)
unfolding same
network_names e h = elim (Bool-cases (same e (codes "curl"))) [
  | inl k ↦ rw ((same_iff e (codes "curl")).0 k) (refl, refl)
  | inr k ↦ elim (Bool-cases (same e (codes "wget"))) [
    | inl l ↦ rw ((same_iff e (codes "wget")).0 l) (refl, refl)
    | inr l ↦ absurd (cc (rw (k, l) at h))
  ]
]

-- An executable that is refused outright, that is git, or that uses the network.
executable_cases :
    (r : Option Rule) (g n x : Bool) (git net : Option SafetyDecision) (name command : Text)
    → verdict git ≡ (if x then some false else none)
    → verdict net ≡ some true
    → (n ≡ true → g ≡ false)
    → verdict (elim r [
      | some rule ↦ some (decided_command blocked false rule name command)
      | none ↦ if g then git else if n then net else none
    ])
      ≡ (if is_some r || (g && x) then some false else if n then some true else none)
executable_cases (some rule) g n x git net name command h k w = refl
executable_cases none false true x git net name command h k w = k
executable_cases none false false x git net name command h k w = refl
executable_cases none true true x git net name command h k w = absurd (cc (w refl))
executable_cases none true false true git net name command h k w = h
executable_cases none true false false git net name command h k w = h

-- A loop that goes on lets a command through so far.
abbrev pub lets_go : Option SafetyDecision → Bool
lets_go none = true
lets_go (some d) = d.allowed

round_cases :
    (o rest : Option SafetyDecision) (r n : Bool)
    → verdict o ≡ (if r then some false else if n then some true else none)
    → (n ≡ true → r ≡ false)
    → lets_go (elim o [ some d ↦ some d | none ↦ rest ])
      ≡ (if n then true else not r && lets_go rest)
round_cases none rest true n h w = cc h
round_cases none rest false true h w = cc h
round_cases none rest false false h w = refl
round_cases (some d) rest true true h w = absurd (cc (w refl))
round_cases (some d) rest true false h w = ground arith
round_cases (some d) rest false true h w = ground arith
round_cases (some d) rest false false h w = cc h

module _ (lib : Library) where
  -- The subcommand changes the repository, or deletes or moves a branch, or deletes a tag.
  abbrev pub changes_repository : List Text → Bool
  changes_repository [] = false
  changes_repository (t ∷ rest) =
      is_in git_mutating_subcommands (lib.lower t)
      || (same (lib.lower t) (codes "branch") && any (is_in destructive) rest)
      || (same (lib.lower t) (codes "tag") && any (is_in (codes "-d" ∷ codes "--delete" ∷ [])) rest)

  abbrev pub is_refused : List Text → Bool
  is_refused [] = false
  is_refused (t ∷ ts) =
      is_some (rule_of blocked_executables (executable_name lib t))
      || (same (executable_name lib t) (codes "git") && changes_repository (skip_options ts))

  abbrev pub is_network : List Text → Bool
  is_network [] = false
  is_network (t ∷ ts) = is_in network_executables (executable_name lib t)

  -- The segments in front of the first one that uses the network.
  abbrev pub before_network : List (List Text) → List (List Text)
  before_network [] = []
  before_network (s ∷ ss) = let rest = before_network ss in if is_network s then [] else s ∷ rest

  git_verdict :
      (name command : Text) (tokens : List Text)
      → verdict (assess_git_tokens lib name command tokens)
        ≡ (if changes_repository (skip_options (drop 1 tokens)) then some false else none)
  unfolding assess_git_tokens
  git_verdict name command tokens = git_cases (skip_options (drop 1 tokens))
    where
      git_cases :
          (rest : List Text)
          → verdict (elim rest [
            | [] ↦ none
            | t ∷ remaining ↦
                if is_in git_mutating_subcommands (lib.lower t)
                then some (decided_command blocked false git_mutation name command)
                else if same (lib.lower t) (codes "branch") && any (is_in destructive) remaining
                then some (decided_command blocked false git_reference_mutation name command)
                else if same (lib.lower t) (codes "tag")
                    && any (is_in (codes "-d" ∷ codes "--delete" ∷ [])) remaining
                then some (decided_command blocked false git_reference_mutation name command)
                else none
          ])
            ≡ (if changes_repository rest then some false else none)
      git_cases [] = refl
      git_cases (t ∷ rest) =
          three (is_in git_mutating_subcommands (lib.lower t))
            (same (lib.lower t) (codes "branch") && any (is_in destructive) rest)
            (same (lib.lower t) (codes "tag")
              && any (is_in (codes "-d" ∷ codes "--delete" ∷ [])) rest)
            _ _ refl refl

  segment_verdict :
      (name command : Text) (s : List Text)
      → verdict (assess_segment lib name command s)
        ≡ (if is_refused s then some false else if is_network s then some true else none)
  unfolding assess_segment
  segment_verdict name command [] = refl
  segment_verdict name command (t ∷ ts) =
      let e = executable_name lib t in
      executable_cases (rule_of blocked_executables e) (same e (codes "git")) (is_network_name e)
        (changes_repository (skip_options ts)) (assess_git_tokens lib name command (t ∷ ts))
        (some (decided_command caution true network_access name command)) name command
        (git_verdict name command (t ∷ ts)) refl (λ h. (network_names e h).1)

  network-not-refused : (s : List Text) → is_network s ≡ true → is_refused s ≡ false
  network-not-refused [] h = refl
  network-not-refused (t ∷ ts) h =
      let names = network_names (executable_name lib t) h in rw (names.0, names.1) refl

  segments_verdict :
      (name command : Text) (ss : List (List Text))
      → lets_go (assess_segments lib name command ss)
        ≡ all (λ s. not (is_refused s)) (before_network ss)
  unfolding assess_segments
  segments_verdict name command [] = refl
  segments_verdict name command (s ∷ ss) =
      let rest = segments_verdict name command ss in
      let round =
        round_cases (assess_segment lib name command s) (assess_segments lib name command ss)
          (is_refused s) (is_network s) (segment_verdict name command s) (network-not-refused s) in
      round ∙ elim (Bool-cases (is_network s)) [ inl k ↦ rw k refl | inr k ↦ rw (k, rest) refl ]

  abbrev pub is_open_command : Option Text → Bool
  is_open_command none = true
  is_open_command (some raw) =
      is_empty (strip raw)
      || (not (is_some (command_guard lib (strip raw)))
          && all (λ s. not (is_refused s)) (before_network (command_segments lib (strip raw))))

  whole_cases :
      (guard : Option Rule) (o : Option SafetyDecision) (install : Bool) (name command : Text)
      → let d : SafetyDecision = elim guard [
        | some rule ↦ decided_command blocked false rule name command
        | none ↦ elim o [
          | some d ↦ d
          | none ↦
              if install
              then decided_command caution true dependency_install name command
              else decided_command safe true command_safe name command
        ]
      ] in
        d.allowed ≡ (not (is_some guard) && lets_go o)
  whole_cases (some rule) o install name command = refl
  whole_cases none (some d) install name command = refl
  whole_cases none none true name command = refl
  whole_cases none none false name command = refl

  -- A command is let through exactly when it is missing or blank, or no guard on the whole of it (here
  -- documents, inline writes, redirection, raw disk writes, in-place edits) fires and, of the
  -- segments in front of the first one that uses the network, none runs a refused executable or a
  -- git subcommand that changes the repository. What follows a segment that uses the network is not looked at.
  pub assess_command-allowed :
      (name : Text) (arguments : Arguments)
      → (assess_command lib name arguments).allowed ≡ is_open_command arguments.command
  unfolding assess_command assess_whole
  assess_command-allowed name arguments = elim (Option-cases arguments.command) [
    | inl k ↦ rw (assess_command, k) refl
    | inr (raw, k) ↦
        let command = strip raw in
        let segments = command_segments lib command in
        let whole =
          whole_cases (command_guard lib command) (assess_segments lib name command segments)
            (lib.is_package_install command) name command
          ∙ ap (λ b. not (is_some (command_guard lib command)) && b)
              (segments_verdict name command segments) in
        elim (Bool-cases (is_empty command)) [
          | inl e ↦ rw (assess_command, k, e) refl
          | inr e ↦ rw (assess_command, k, e) whole
        ]
  ]
