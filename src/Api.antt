-- ===== src/Api.antt =====
-- internal/api/api.go: the errors of the HTTP handlers, with their status and code. A handler takes
-- the decoded body, where `none` is a body that is not JSON, and gives the response. Routing, headers
-- and the encoding of the response are not modelled.
pub mod Readiness
pub mod Diff
pub mod Employees
pub mod Facts
pub mod Rules
pub mod Preview
pub mod Tests
use wrap_policy_assignment_s.Base.{
  ℕ, zero, suc, ◌+◌, ◌/◌, ◌%◌, Bool, true, false, ltb, Option, none, some, List, [], ◌∷◌, ◌++◌,
  if◌then◌else◌, Result, ok, err,
}
use wrap_policy_assignment_s.Base.Text.{Text, codes, text_eq}
use wrap_policy_assignment_s.Base.Date.{parse_date}
use wrap_policy_assignment_s.Resolver.Ast.{ParseError}
use wrap_policy_assignment_s.Resolver.Ast.Validate.{ValidateError}
use wrap_policy_assignment_s.Resolver.Resolve.{ResolveError}
use wrap_policy_assignment_s.Repo.Facts.{FactError}
use wrap_policy_assignment_s.Repo.Rules.{RuleError}
use wrap_policy_assignment_s.Repo.Outbox.{EmitError}
use wrap_policy_assignment_s.Repo.Traces.{TraceError, no_trace}
use wrap_policy_assignment_s.Repo.Store.{StoreError}

-- The errors of the repository that a handler passes on.
pub data RepoError : Type 0 where
  of_store : StoreError → RepoError
  of_facts : FactError → RepoError
  of_rules : RuleError → RepoError
  of_outbox : EmitError → RepoError
  of_trace : TraceError → RepoError
  of_resolver : ResolveError → RepoError

-- The calls of `writeError`. `missing` names the required fields, `bad_day` has a date.
pub data ApiError : Type 0 where
  invalid_body : ApiError
  missing : List Text → ApiError
  bad_day : Text → ApiError
  unknown_source : Text → ApiError
  unparsable_predicate : ParseError → ApiError
  refused_predicate : ValidateError → ApiError
  trace_not_found : ApiError
  internal : RepoError → ApiError

-- The status of an error.
abbrev pub status : ApiError → ℕ
status trace_not_found = 404
status (internal e) = 500
status e = 400

-- The code of an error.
abbrev pub error_code : ApiError → Text
error_code (unparsable_predicate e) = codes "bad_predicate"
error_code (refused_predicate e) = codes "bad_predicate"
error_code trace_not_found = codes "trace_not_found"
error_code (internal e) = codes "internal"
error_code e = codes "bad_request"

-- `repoError`
abbrev pub repo_error : RepoError → ApiError
repo_error (of_trace no_trace) = trace_not_found
repo_error e = internal e

-- `decodeBody`
abbrev pub decode_body : {A : Type 0} → Option A → Result ApiError A
decode_body none = err invalid_body
decode_body (some a) = ok a

-- A field that is empty has its default.
abbrev pub or_default : Text → Text → Text
or_default [] default = default
or_default (c ∷ s) default = c ∷ s

abbrev pub is_empty : Text → Bool
is_empty s = text_eq s []

-- `utils.ParseDate`, of which the handlers use the error.
abbrev pub check_day : Text → Result ApiError (Unit {0})
check_day s = elim (parse_date s) [ none ↦ err (bad_day s) | some d ↦ ok tt ]

unfoldable decimal_from : ℕ → ℕ → Text
decimal_from zero n = []
decimal_from (suc fuel) n =
    let rest = decimal_from fuel (n / 10) in
    if ltb n 10 then (48 + n) ∷ [] else rest ++ (48 + n % 10) ∷ []

-- `%d` of an integer that is not negative. An int64 has at most 19 digits.
unfoldable pub decimal : ℕ → Text
unfolding decimal_from
decimal n = decimal_from 20 n
