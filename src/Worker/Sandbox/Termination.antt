-- ===== src/Worker/Sandbox/Termination.antt =====
-- When wrapWithSandbox returns.
use xrunner.Base.{
  Bool, Bool-cases, List, Option, Returns, Text, arith, false, inl, inr, is_none, none, refl, some,
  suc, true, zero, ℕ, ◌&&◌, ◌∙◌, ◌≡◌, ◌≤◌,
}
use xrunner.Control.Types.{SandboxSpec}
use xrunner.Worker.Sandbox.{
  Choice, Runner, Wrapped, choose, effective, follow, jailed, on_host, other_type, sandbox_bin_of,
  under_nsjail, wrap_with_sandbox,
}

-- The call for this choice ends in a call with no sandbox.
abbrev pub falls_back : Runner → (Text → Option Text) → Choice → Bool
falls_back r look_path (on_host type) = false
falls_back r look_path (under_nsjail spec) =
    r.allow_unsafe_fallback && is_none (look_path (sandbox_bin_of spec))
falls_back r look_path other_type = true

module _ (r : Runner) (look_path : Text → Option Text) (base : List Text) (env : List Text)
    (workspace : Text) where
  follow_back :
      (c : Choice) (again : Option Wrapped)
      → falls_back r look_path c ≡ true
      → follow r look_path base env workspace c again ≡ again
  unfolding follow jailed
  follow_back c again h = ground arith

  jailed_direct :
      (path : Option Text) (spec : SandboxSpec) (again : Option Wrapped)
      → (r.allow_unsafe_fallback && is_none path) ≡ false
      → Returns (λ w. Unit {0}) (jailed r look_path base env workspace path spec again)
  unfolding jailed
  jailed_direct (some path) spec again h = (_, refl, tt)
  jailed_direct none spec again h = elim (Bool-cases r.allow_unsafe_fallback) [
    | inl y ↦ ground arith
    | inr y ↦ rw y (_, refl, tt)
  ]

  follow_direct :
      (c : Choice) (again : Option Wrapped)
      → falls_back r look_path c ≡ false
      → Returns (λ w. Unit {0}) (follow r look_path base env workspace c again)
  unfolding follow jailed
  follow_direct (on_host type) again h = (_, refl, tt)
  follow_direct (under_nsjail spec) again h =
      jailed_direct (look_path (sandbox_bin_of spec)) spec again h
  follow_direct other_type again h = cc

  -- Two calls are enough, if the default sandbox itself does not fall back: wrapWithSandbox then
  -- returns a command or an error, whatever sandbox the job asks for.
  pub wrap_with_sandbox_total :
      (sandbox : Option SandboxSpec) (fuel : ℕ)
      → 2 ≤ fuel
      → falls_back r look_path (choose r.default_sandbox) ≡ false
      → Returns (λ w. Unit {0}) (wrap_with_sandbox r look_path base env workspace fuel sandbox)
  unfolding wrap_with_sandbox
  wrap_with_sandbox_total sandbox zero big h = absurd (omega arith)
  wrap_with_sandbox_total sandbox (suc zero) big h = absurd (omega arith)
  wrap_with_sandbox_total sandbox (suc (suc fuel)) big h =
      let default = choose r.default_sandbox in
      let inner = wrap_with_sandbox r look_path base env workspace (suc fuel) none in
      let c = choose (effective sandbox r.default_sandbox) in
      elim (Bool-cases (falls_back r look_path c)) [
        | inl back ↦
            rw (follow_back c inner back)
              (follow_direct default (wrap_with_sandbox r look_path base env workspace fuel none) h)
        | inr direct ↦ follow_direct c inner direct
      ]

  -- Where the default sandbox falls back (its nsjail is missing and the fallback is allowed, or its
  -- type is unknown), a job with no sandbox of its own is never answered: no number of nested
  -- calls is enough.
  pub wrap_with_sandbox_diverges :
      (fuel : ℕ)
      → falls_back r look_path (choose r.default_sandbox) ≡ true
      → wrap_with_sandbox r look_path base env workspace fuel none ≡ none
  unfolding wrap_with_sandbox
  wrap_with_sandbox_diverges zero h = refl
  wrap_with_sandbox_diverges (suc fuel) h =
      follow_back (choose r.default_sandbox)
        (wrap_with_sandbox r look_path base env workspace fuel none) h
      ∙ wrap_with_sandbox_diverges fuel h
