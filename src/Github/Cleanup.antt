-- ===== src/Github/Cleanup.antt =====
-- What the answer of cleanup_pr of github_tools.py is worth.
use bulletfarm.Prelude.{
  ℕ, String, ◌≡◌, refl, Bool, true, false, inl, inr, none, some, Option-cases, ◌==◌, ◌∷◌, ◌<>◌,
  if◌then◌else◌,
}
use bulletfarm.Prelude.Exec.{Result, raised, ok, pure, ◌>>=◌, ◌>>◌}
use bulletfarm.Prelude.Triple.{Triple, Ends, Triple-bind, Triple-pure, Triple-attempt}
use bulletfarm.Outside.{Call, History, Github, call}
use bulletfarm.Github.PrUrl.{parse_pr_url}
use bulletfarm.Github.Client.{CleanupResult, not_cleaned, cleanup_branch, cleanup_at, cleanup_pr}
use bulletfarm.Github.Calls.{Answered, Denied, call_else, Place, Target, Refused, after_int-Ends}

abbrev answer_of : Bool → Bool → CleanupResult
answer_of closed deleted = record { pr_closed = closed; branch_deleted = deleted }

module _ (gh : Github) (repo head_ref : String) (old : History) where
  abbrev ref_of : String
  ref_of = "heads/" <> head_ref

  -- The branch after the calls `old`: it is gone only where its deletion was answered without an
  -- exception.
  pub data Branch : Bool → History → Type 0 where
    no_ref :
        (h : History) → Denied gh.get_git_ref (Call.get_git_ref repo ref_of) old h → Branch false h
    kept :
        (h : History)
        → Denied gh.delete_git_ref
            (Call.delete_git_ref repo ref_of)
            (Call.get_git_ref repo ref_of ∷ old)
            h
        → Branch false h
    gone :
        (h : History)
        → Answered gh.delete_git_ref
            (Call.delete_git_ref repo ref_of)
            (Call.get_git_ref repo ref_of ∷ old)
            tt
            h
        → Branch true h

  deletes :
      Triple
        (λ h. h ≡ Call.get_git_ref repo ref_of ∷ old)
        (do call gh.delete_git_ref (Call.delete_git_ref repo ref_of); pure true)
        Branch
        (Branch false)
  deletes =
      let c = Call.delete_git_ref repo ref_of in
      let before = Call.get_git_ref repo ref_of ∷ old in
      Triple-bind (λ h. h ≡ before) _ (Answered gh.delete_git_ref c before) _ Branch (Branch false)
        (call_else gh.delete_git_ref c before (Branch false) kept)
        (λ u.
          Triple-pure (Answered gh.delete_git_ref c before u) Branch (Branch false) true
            (λ h d. gone h d))

  pub cleanup_branch-Branch :
      Triple (λ h. h ≡ old) (cleanup_branch gh repo head_ref) Branch (λ _. ⊥)
  unfolding cleanup_branch
  cleanup_branch-Branch =
      let c = Call.get_git_ref repo ref_of in
      Triple-attempt (λ h. h ≡ old) _ Branch (Branch false) (λ _. ⊥) _
        (Triple-bind (λ h. h ≡ old) _ (Answered gh.get_git_ref c old) _ Branch (Branch false)
          (call_else gh.get_git_ref c old (Branch false) no_ref)
          (λ u. record { at = λ h found. deletes.at h found.1 }))
        (λ e. Triple-pure (Branch false) Branch (λ _. ⊥) false (λ h q. q))

module _ (gh : Github) (pr_url : String) (old : History) where
  abbrev pub found_by : Target gh pr_url old → History
  found_by t =
      Call.get_pull t.place.repo.full_name t.place.number ∷ Call.get_repo t.place.repo_name ∷ old

  abbrev pub closing_of : Target gh pr_url old → Call
  closing_of t = Call.close_pull t.place.repo.full_name t.pr.number

  abbrev pub BranchOf : Target gh pr_url old → History → Bool → History → Type 0
  BranchOf t = Branch gh t.place.repo.full_name t.pr.head_ref

  -- What an answer comes from, and all the calls that were made for it.
  pub data IsTrue : CleanupResult → History → Type 0 where
    unknown : (h : History) → parse_pr_url pr_url ≡ none → h ≡ old → IsTrue not_cleaned h
    no_repo :
        (h : History) (repo_name : String) (number : ℕ)
        → parse_pr_url pr_url ≡ some (repo_name, number)
        → Denied gh.get_repo (Call.get_repo repo_name) old h
        → IsTrue not_cleaned h
    no_pull :
        (h : History) (p : Place gh pr_url old)
        → Denied gh.get_pull
            (Call.get_pull p.repo.full_name p.number)
            (Call.get_repo p.repo_name ∷ old)
            h
        → IsTrue not_cleaned h
    still_open :
        (h : History) (t : Target gh pr_url old)
        → (t.pr.state == "open") ≡ true
        → Denied gh.close_pull (closing_of t) (found_by t) h
        → IsTrue not_cleaned h
    was_closed :
        (h : History) (t : Target gh pr_url old) (deleted : Bool)
        → (t.pr.state == "open") ≡ false
        → BranchOf t (found_by t) deleted h
        → IsTrue (answer_of false deleted) h
    closed :
        (h : History) (t : Target gh pr_url old) (deleted : Bool)
        → (t.pr.state == "open") ≡ true
        → gh.close_pull (closing_of t ∷ found_by t) ≡ ok tt
        → BranchOf t (closing_of t ∷ found_by t) deleted h
        → IsTrue (answer_of true deleted) h

  abbrev Failed : History → Type 0
  Failed = IsTrue not_cleaned

  module _ (t : Target gh pr_url old) where
    -- What is known of the pull request before its branch is looked at.
    abbrev Closing : Bool → History → Type 0
    Closing true h =
        ((t.pr.state == "open") ≡ true) × Answered gh.close_pull (closing_of t) (found_by t) tt h
    Closing false h = ((t.pr.state == "open") ≡ false) × (h ≡ found_by t)

    closes :
        (is_open : Bool)
        → (t.pr.state == "open") ≡ is_open
        → Triple
            (λ h. h ≡ found_by t)
            (if is_open then (do call gh.close_pull (closing_of t); pure true) else pure false)
            Closing
            Failed
    closes true e =
        Triple-bind (λ h. h ≡ found_by t) _ (Answered gh.close_pull (closing_of t) (found_by t)) _
          Closing Failed
          (call_else gh.close_pull (closing_of t) (found_by t) Failed (λ h d. still_open h t e d))
          (λ u.
            Triple-pure (Answered gh.close_pull (closing_of t) (found_by t) u) Closing Failed true
              (λ h d. (e, d)))
    closes false e = Triple-pure (λ h. h ≡ found_by t) Closing Failed false (λ h d. (e, d))

    no_failure :
        (b : Bool) (before : History) (r : Result Bool × History)
        → ((d : Bool) (k : History) → BranchOf t before d k → IsTrue (answer_of b d) k)
        → Ends (BranchOf t before) (λ _. ⊥) r
        → Ends (λ d. IsTrue (answer_of b d)) Failed r
    no_failure b before (ok d, k) f q = f d k q
    no_failure b before (raised x, k) f q = absurd q

    branch-IsTrue :
        (b : Bool)
        → Triple
            (Closing b)
            (cleanup_branch gh t.place.repo.full_name t.pr.head_ref)
            (λ d. IsTrue (answer_of b d))
            Failed
    branch-IsTrue true = record {
      at = λ h (e, (done, at)).
          let before = closing_of t ∷ found_by t in
          no_failure true before _ (λ d k q. closed k t d e done q)
            ((cleanup_branch-Branch gh t.place.repo.full_name t.pr.head_ref before).at h at);
    }
    branch-IsTrue false = record {
      at = λ h (e, at).
          no_failure false (found_by t) _ (λ d k q. was_closed k t d e q)
            ((cleanup_branch-Branch gh t.place.repo.full_name t.pr.head_ref (found_by t)).at h at);
    }

    -- What is done to a pull request that is known.
    cleaned :
        Triple
          (λ h. h ≡ found_by t)
          (do
            is_closed ←
                if t.pr.state == "open"
                then (do
                  call gh.close_pull (Call.close_pull t.place.repo.full_name t.pr.number)
                  pure true)
                else pure false
            deleted ← cleanup_branch gh t.place.repo.full_name t.pr.head_ref
            pure (record { pr_closed = is_closed; branch_deleted = deleted }))
          IsTrue
          Failed
    cleaned =
        Triple-bind (λ h. h ≡ found_by t) _ Closing _ IsTrue Failed
          (closes (t.pr.state == "open") refl)
          (λ b.
            Triple-bind (Closing b) _ (λ d. IsTrue (answer_of b d)) _ IsTrue Failed
              (branch-IsTrue b)
              (λ d. Triple-pure (IsTrue (answer_of b d)) IsTrue Failed _ (λ h q. q)))

  pull-IsTrue :
      (p : Place gh pr_url old)
      → Triple
          (λ h. h ≡ Call.get_repo p.repo_name ∷ old)
          (do
            pr ← call gh.get_pull (Call.get_pull p.repo.full_name p.number)
            is_closed ←
                if pr.state == "open"
                then (do call gh.close_pull (Call.close_pull p.repo.full_name pr.number); pure true)
                else pure false
            deleted ← cleanup_branch gh p.repo.full_name pr.head_ref
            pure (record { pr_closed = is_closed; branch_deleted = deleted }))
          IsTrue
          Failed
  pull-IsTrue p =
      let before = Call.get_repo p.repo_name ∷ old in
      let c = Call.get_pull p.repo.full_name p.number in
      Triple-bind (λ h. h ≡ before) _ (Answered gh.get_pull c before) _ IsTrue Failed
        (call_else gh.get_pull c before Failed (λ h d. no_pull h p d))
        (λ pr. record {
          at = λ h (got, at). (cleaned (record { place = p; pr = pr; got = got })).at h at;
        })

  cleanup_at-IsTrue :
      (repo_name : String) (n : ℕ)
      → parse_pr_url pr_url ≡ some (repo_name, n)
      → Triple (λ h. h ≡ old) (cleanup_at gh repo_name n) IsTrue (λ _. ⊥)
  unfolding cleanup_at
  cleanup_at-IsTrue repo_name n parsed =
      let c = Call.get_repo repo_name in
      Triple-attempt (λ h. h ≡ old) _ IsTrue Failed (λ _. ⊥) _
        (Triple-bind (λ h. h ≡ old) _ (Answered gh.get_repo c old) _ IsTrue Failed
          (call_else gh.get_repo c old Failed (λ h d. no_repo h repo_name n parsed d))
          (λ repo. record {
            at = λ h known.
                (pull-IsTrue (record {
                  repo_name = repo_name;
                  number = n;
                  repo = repo;
                  parsed = parsed;
                  known = known.0;
                })).at
                  h known.1;
          }))
        (λ e. Triple-pure Failed IsTrue (λ _. ⊥) not_cleaned (λ h q. q))

  -- Either `cleanup_pr` returns, or the number in the address has more than 4300 digits, and then it
  -- raises before any call. For an address that is none it makes no call and says neither of the two
  -- things. Else it looks up the repository and the pull request by the name and the number in the
  -- address, closes that pull request if it is open, and then looks up and deletes its branch,
  -- and makes no other call. It says that the pull request is closed exactly where the call that closes
  -- it was answered without an exception, and that the branch is deleted exactly where the call that
  -- deletes it was. After an exception of a lookup of these two, or of the closing, it says neither,
  -- and makes no further call.
  pub cleanup_pr-IsTrue : Ends IsTrue (Refused gh pr_url old) (cleanup_pr gh pr_url old)
  unfolding cleanup_pr
  cleanup_pr-IsTrue = elim (Option-cases (parse_pr_url pr_url)) [
    | inl e ↦ rw (e, cleanup_pr) (unknown old e refl)
    | inr ((repo, n), e) ↦
        rw (e, cleanup_pr)
          (after_int-Ends gh pr_url old (cleanup_at gh repo n) IsTrue
            ((cleanup_at-IsTrue repo n e).at old refl))
  ]
