-- ===== src/Gate/Laws.antt =====
-- The gate passes exactly when what it is to check holds.
use isabelle_repl.Base.{
  ℤ, pos, int_eq, ◌≡◌, ◌↔◌, refl, sym, ap, subst, String, Bool, true, false, ◌==◌, none, some, List,
  [], ◌∷◌, All, occurs_in, Attempt, returned, raised, if◌then◌else◌, arith,
}
use isabelle_repl.Gate.{
  GateHost, GateFailure, missing_doc, missing_token, helper_in_runtime, tests_failed, tests_skipped,
  Check, and_next, required_docs, required_doc_tokens, forbidden_runtime_files, check_files,
  check_tokens, check_text, check_doc_tokens, check_forbidden, check_required_docs,
  run_acceptance_tests, gate_main, HasTokens, IsAccepted,
}

abbrev text_of : Attempt String → String
text_of (returned text) = text
text_of (raised e) = ""

and_next-none : (a b : Check) → (and_next a b ≡ none) ↔ ((a ≡ none) × (b ≡ none))
and_next-none none b = (λ h. (refl, h), λ h. h.1)
and_next-none (some failure) b = (λ h. cc, λ h. cc)

-- A test that ends with a failure unless it holds.
if-none :
    (test : Bool) (next : Check) (failure : GateFailure)
    → ((if test then next else some failure) ≡ none) ↔ ((test ≡ true) × (next ≡ none))
if-none true next failure = (λ h. (refl, h), λ h. h.1)
if-none false next failure = (λ h. cc, λ h. cc)

if_not-none :
    (test : Bool) (next : Check) (failure : GateFailure)
    → ((if test then some failure else next) ≡ none) ↔ ((test ≡ false) × (next ≡ none))
if_not-none true next failure = (λ h. cc, λ h. cc)
if_not-none false next failure = (λ h. (refl, h), λ h. h.1)

module _ (host : GateHost) where
  check_files-none :
      (paths : List String)
      → (check_files host paths ≡ none) ↔ All (λ path. host.is_file path ≡ true) paths
  check_files-none [] = (λ h. tt, λ h. refl)
  check_files-none (path ∷ paths) =
      let (there, back) = if-none (host.is_file path) (check_files host paths) (missing_doc path) in
      let (rest, rest_back) = check_files-none paths in
      (λ h. let (a, b) = there h in (a, rest b), λ h. back (h.0, rest_back h.1))

  check_tokens-none :
      (path text : String) (tokens : List String)
      → (check_tokens host path text tokens ≡ none)
        ↔ All (λ token. occurs_in token text ≡ true) tokens
  check_tokens-none path text [] = (λ h. tt, λ h. refl)
  check_tokens-none path text (token ∷ tokens) =
      let (there, back) =
        if-none (occurs_in token text) (check_tokens host path text tokens)
          (missing_token token path) in
      let (rest, rest_back) = check_tokens-none path text tokens in
      (λ h. let (a, b) = there h in (a, rest b), λ h. back (h.0, rest_back h.1))

  check_text-none :
      (path : String) (tokens : List String) (read : Attempt String)
      → (check_text host path tokens read ≡ none) ↔ (
          (text : String) × (read ≡ returned text)
          × All (λ token. occurs_in token text ≡ true) tokens)
  check_text-none path tokens (returned text) =
      let (there, back) = check_tokens-none path text tokens in
      (
        λ h. (text, refl, there h),
        λ (other, same, has). back (
            subst (λ t. All (λ token. occurs_in token t ≡ true) tokens) (ap text_of (sym same))
              has),
      )
  check_text-none path tokens (raised e) = (λ h. cc, λ (text, same, has). cc)

  check_doc_tokens-none :
      (docs : List (String × List String))
      → (check_doc_tokens host docs ≡ none) ↔ All (HasTokens host) docs
  check_doc_tokens-none [] = (λ h. tt, λ h. refl)
  check_doc_tokens-none ((path, tokens) ∷ docs) =
      let (there, back) = and_next-none _ _ in
      let (first, first_back) = check_text-none path tokens (host.read_text path) in
      let (rest, rest_back) = check_doc_tokens-none docs in
      (λ h. let (a, b) = there h in (first a, rest b), λ h. back (first_back h.0, rest_back h.1))

  check_forbidden-none :
      (paths : List String)
      → (check_forbidden host paths ≡ none) ↔ All (λ path. host.exists path ≡ false) paths
  check_forbidden-none [] = (λ h. tt, λ h. refl)
  check_forbidden-none (path ∷ paths) =
      let (there, back) =
        if_not-none (host.exists path) (check_forbidden host paths) (helper_in_runtime path) in
      let (rest, rest_back) = check_forbidden-none paths in
      (λ h. let (a, b) = there h in (a, rest b), λ h. back (h.0, rest_back h.1))

  check_required_docs-none : (check_required_docs host ≡ none) ↔ (
      All (λ path. host.is_file path ≡ true) (required_docs host)
      × All (HasTokens host) (required_doc_tokens host)
      × All (λ path. host.exists path ≡ false) (forbidden_runtime_files host))
  unfolding check_required_docs
  check_required_docs-none =
      let (outer, outer_back) = and_next-none _ _ in
      let (inner, inner_back) = and_next-none _ _ in
      let (files, files_back) = check_files-none (required_docs host) in
      let (tokens, tokens_back) = check_doc_tokens-none (required_doc_tokens host) in
      let (helpers, helpers_back) = check_forbidden-none (forbidden_runtime_files host) in
      (
        λ h. let (a, bc) = outer h in let (b, c) = inner bc in (files a, tokens b, helpers c),
        λ h. outer_back (files_back h.0, inner_back (tokens_back h.1, helpers_back h.2)),
      )

  run_acceptance_tests-none :
      (run_acceptance_tests host ≡ none)
      ↔ ((host.pytest.returncode ≡ pos 0) × (occurs_in "SKIPPED" host.pytest.stdout ≡ false))
  unfolding run_acceptance_tests
  run_acceptance_tests-none =
      let (code, code_back) =
        if-none (host.pytest.returncode == pos 0) _ (tests_failed host.pytest.returncode) in
      let (skipped, skipped_back) =
        if_not-none (occurs_in "SKIPPED" host.pytest.stdout) none tests_skipped in
      (
        λ h. let (a, b) = code h in (is_equal a, (skipped b).0),
        λ h. code_back (equal_is h.0, skipped_back (h.1, refl)),
      )
    where
      is_equal : {a : ℤ} → (a == pos 0) ≡ true → a ≡ pos 0
      is_equal h = ground (arith, h)

      equal_is : {a : ℤ} → a ≡ pos 0 → (a == pos 0) ≡ true
      equal_is h = ground (arith, h)

  -- The gate passes exactly when all required documents are files, each listed one can be read and has
  -- its tokens, no test helper is left in the runtime sources, and pytest ended with code 0 and
  -- printed no SKIPPED.
  pub gate_main-IsAccepted : (gate_main host ≡ none) ↔ IsAccepted host
  unfolding gate_main
  gate_main-IsAccepted =
      let (both, both_back) = and_next-none _ _ in
      let (docs, docs_back) = check_required_docs-none in
      let (tests, tests_back) = run_acceptance_tests-none in
      (
        λ h.
            let (a, b) = both h in
            let (files, tokens, helpers) = docs a in
            let (code, unskipped) = tests b in
            record {
              docs = files;
              tokens = tokens;
              helpers = helpers;
              tests = code;
              unskipped = unskipped;
            },
        λ h. both_back (docs_back (h.docs, h.tokens, h.helpers), tests_back (h.tests, h.unskipped)),
      )
