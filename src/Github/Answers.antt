-- ===== src/Github/Answers.antt =====
-- What the answers of comment_on_pr and get_pr_status of github_tools.py are worth.
use bulletfarm.Prelude.{
  not, keep, if◌then◌else◌, ℕ, String, ◌≡◌, refl, Bool, true, false, inl, inr, some, Option-cases,
  Bool-cases, none, ◌∷◌, arith,
}
use bulletfarm.Prelude.Exec.{Exn, raised, pure, ◌>>=◌, ◌>>◌}
use bulletfarm.Prelude.Triple.{Ends, Triple, Triple-bind, Triple-pure, Triple-attempt}
use bulletfarm.Outside.{Pull, Call, History, Github, call}
use bulletfarm.Github.PrUrl.{parse_pr_url}
use bulletfarm.Github.Client.{
  PrStatus, failed_status, read_pr_status, get_pr_status, comment_at, comment_parsed, comment_on_pr,
}
use bulletfarm.Github.Calls.{Answered, Denied, call_else, Place, Target, Refused, after_int-Ends}

abbrev pub is_lookup : Call → Bool
is_lookup (Call.get_repo _) = true
is_lookup (Call.get_pull _ _) = true
is_lookup _ = false

-- The calls that may change something, the latest first.
abbrev pub changes : History → History
changes h = keep (λ c. not (is_lookup c)) h

-- The status of a pull request, as GitHub answers it.
abbrev pub status_of : Pull → PrStatus
status_of pr = record {
  state = if pr.merged then "merged" else pr.state;
  merged = pr.merged;
  draft = pr.draft;
}

abbrev pub IsConsistent : PrStatus → Type 0
IsConsistent status = status.merged ≡ true → status.state ≡ "merged"

module _ (gh : Github) (pr_url : String) (old : History) where
  abbrev pub comment_of : Place gh pr_url old → String → Call
  comment_of p comment = Call.create_comment p.repo.full_name p.number comment

  abbrev pub looking_up : Place gh pr_url old → History
  looking_up p = Call.get_issue p.repo.full_name p.number ∷ Call.get_repo p.repo_name ∷ old

  -- What a reply comes from, and all the calls that were made for it: yes for a comment that GitHub
  -- took, and no for an address that is none, or an exception of one of the calls, which is the last.
  pub data Posted (comment : String) : Bool → History → Type 0 where
    unknown : (h : History) → parse_pr_url pr_url ≡ none → h ≡ old → Posted comment false h
    no_repo :
        (h : History) (repo_name : String) (number : ℕ)
        → parse_pr_url pr_url ≡ some (repo_name, number)
        → Denied gh.get_repo (Call.get_repo repo_name) old h
        → Posted comment false h
    no_issue :
        (h : History) (p : Place gh pr_url old)
        → Denied gh.get_issue
            (Call.get_issue p.repo.full_name p.number)
            (Call.get_repo p.repo_name ∷ old)
            h
        → Posted comment false h
    no_comment :
        (h : History) (p : Place gh pr_url old)
        → Denied gh.create_comment (comment_of p comment) (looking_up p) h
        → Posted comment false h
    posted :
        (h : History) (p : Place gh pr_url old)
        → Answered gh.create_comment (comment_of p comment) (looking_up p) tt h
        → Posted comment true h

  abbrev Unposted : String → History → Type 0
  Unposted comment = Posted comment false

  -- The comment itself, on an issue that was found.
  adding :
      (p : Place gh pr_url old) (comment : String)
      → Triple
          (λ h. h ≡ looking_up p)
          (do call gh.create_comment (comment_of p comment); pure true)
          (Posted comment)
          (Unposted comment)
  adding p comment =
      let c = comment_of p comment in
      let before = looking_up p in
      Triple-bind (λ h. h ≡ before) _ (Answered gh.create_comment c before) _ (Posted comment)
        (Unposted comment)
        (call_else gh.create_comment c before (Unposted comment) (λ h d. no_comment h p d))
        (λ u.
          Triple-pure (Answered gh.create_comment c before u) (Posted comment) (Unposted comment)
            true (λ h d. posted h p d))

  -- The comment, in a repository that is known.
  posting :
      (p : Place gh pr_url old) (comment : String)
      → Triple
          (λ h. h ≡ Call.get_repo p.repo_name ∷ old)
          (do
            call gh.get_issue (Call.get_issue p.repo.full_name p.number)
            call gh.create_comment (comment_of p comment)
            pure true)
          (Posted comment)
          (Unposted comment)
  posting p comment =
      let c = Call.get_issue p.repo.full_name p.number in
      let before = Call.get_repo p.repo_name ∷ old in
      Triple-bind (λ h. h ≡ before) _ (Answered gh.get_issue c before) _ (Posted comment)
        (Unposted comment)
        (call_else gh.get_issue c before (Unposted comment) (λ h d. no_issue h p d))
        (λ u. record { at = λ h found. (adding p comment).at h found.1 })

  comment_at-Posted :
      (repo_name : String) (n : ℕ) (comment : String)
      → parse_pr_url pr_url ≡ some (repo_name, n)
      → Triple (λ h. h ≡ old) (comment_at gh repo_name n comment) (Posted comment) (λ _. ⊥)
  unfolding comment_at
  comment_at-Posted repo_name n comment parsed =
      let c = Call.get_repo repo_name in
      Triple-attempt (λ h. h ≡ old) _ (Posted comment) (Unposted comment) (λ _. ⊥) _
        (Triple-bind (λ h. h ≡ old) _ (Answered gh.get_repo c old) _ (Posted comment)
          (Unposted comment)
          (call_else gh.get_repo c old (Unposted comment) (λ h d. no_repo h repo_name n parsed d))
          (λ repo. record {
            at = λ h known.
                (posting
                    (record {
                      repo_name = repo_name;
                      number = n;
                      repo = repo;
                      parsed = parsed;
                      known = known.0;
                    })
                    comment).at
                  h known.1;
          }))
        (λ e. Triple-pure (Unposted comment) (Posted comment) (λ _. ⊥) false (λ h q. q))

  -- Either `comment_on_pr` returns, or the number in the address has more than 4300 digits, and then
  -- it raises before any call. It says yes exactly for a comment that GitHub took without an
  -- exception: the given one, on the issue of the number in the address, in the repository that GitHub
  -- answers for the name in the address, after that repository and that issue were looked up. It says
  -- no where the address is none, or where one of these calls was answered with an exception. It makes
  -- no other call.
  pub comment_on_pr_honest :
      (comment : String)
      → Ends (Posted comment) (Refused gh pr_url old) (comment_on_pr gh pr_url comment old)
  unfolding comment_on_pr comment_parsed
  comment_on_pr_honest comment = elim (Option-cases (parse_pr_url pr_url)) [
    | inl e ↦ rw (e, comment_on_pr) (unknown old e refl)
    | inr ((repo, n), e) ↦
        rw (e, comment_on_pr)
          (after_int-Ends gh pr_url old (comment_at gh repo n comment) (Posted comment)
            ((comment_at-Posted repo n comment e).at old refl))
  ]

  abbrev Unchanged : History → Type 0
  Unchanged h = changes h ≡ changes old

  -- What a status comes from: the address, the exceptions of GitHub, or the pull request.
  pub data Told : PrStatus → Type 0 where
    unknown : parse_pr_url pr_url ≡ none → Told (failed_status gh "unknown")
    no_repo :
        (repo_name : String) (number : ℕ) (exc : Exn)
        → parse_pr_url pr_url ≡ some (repo_name, number)
        → gh.get_repo (Call.get_repo repo_name ∷ old) ≡ raised exc
        → Told (failed_status gh "error")
    no_pull :
        (p : Place gh pr_url old) (exc : Exn)
        → gh.get_pull (Call.get_pull p.repo.full_name p.number ∷ Call.get_repo p.repo_name ∷ old)
          ≡ raised exc
        → Told (failed_status gh "error")
    pulled : (t : Target gh pr_url old) → Told (status_of t.pr)

  pub record Read (status : PrStatus) (h : History) : Type 0 where
    pub told : Told status
    pub consistent : IsConsistent status
    pub unchanged : Unchanged h

  abbrev Error : History → Type 0
  Error = Read (failed_status gh "error")

  failed : (h : History) → Told (failed_status gh "error") → Unchanged h → Error h
  failed h t same = record { told = t; consistent = λ f. ground arith; unchanged = same }

  status_of-IsConsistent : (pr : Pull) → IsConsistent (status_of pr)
  status_of-IsConsistent pr = elim (Bool-cases pr.merged) [
    | inl e ↦ λ f. rw e refl
    | inr e ↦ λ f. ground arith
  ]

  -- The pull request, in a repository that is known.
  pull-Read :
      (p : Place gh pr_url old)
      → Triple
          (λ h. h ≡ Call.get_repo p.repo_name ∷ old)
          (do pr ← call gh.get_pull (Call.get_pull p.repo.full_name p.number); pure (status_of pr))
          Read
          Error
  pull-Read p =
      let before = Call.get_repo p.repo_name ∷ old in
      let c = Call.get_pull p.repo.full_name p.number in
      Triple-bind (λ h. h ≡ before) _ (Answered gh.get_pull c before) _ Read Error
        (call_else gh.get_pull c before Error
          (λ h (exc, e, at). failed h (no_pull p exc e) (rw at refl)))
        (λ pr.
          Triple-pure (Answered gh.get_pull c before pr) Read Error (status_of pr) (λ h (e, at).
            record {
              told = pulled (record { place = p; pr = pr; got = e });
              consistent = status_of-IsConsistent pr;
              unchanged = rw at refl;
            }))

  read_pr_status-Read :
      (repo_name : String) (n : ℕ)
      → parse_pr_url pr_url ≡ some (repo_name, n)
      → Triple (λ h. h ≡ old) (read_pr_status gh repo_name n) Read (λ _. ⊥)
  unfolding read_pr_status
  read_pr_status-Read repo_name n parsed =
      let c = Call.get_repo repo_name in
      Triple-attempt (λ h. h ≡ old) _ Read Error (λ _. ⊥) _
        (Triple-bind (λ h. h ≡ old) _ (Answered gh.get_repo c old) _ Read Error
          (call_else gh.get_repo c old Error
            (λ h (exc, e, at). failed h (no_repo repo_name n exc parsed e) (rw at refl)))
          (λ repo. record {
            at = λ h known.
                (pull-Read (record {
                  repo_name = repo_name;
                  number = n;
                  repo = repo;
                  parsed = parsed;
                  known = known.0;
                })).at
                  h known.1;
          }))
        (λ e. Triple-pure Error Read (λ _. ⊥) _ (λ h q. q))

  -- Either `get_pr_status` returns, or the number in the address has more than 4300 digits, and then
  -- it raises before any call. The status is that of the pull request that GitHub answers for the
  -- repository and the number in the address; "error" only where GitHub raised an exception for one of
  -- them, and "unknown" only where the address is none. A status that is merged has the state
  -- "merged". No call is made that may change something.
  pub get_pr_status_reads : Ends Read (Refused gh pr_url old) (get_pr_status gh pr_url old)
  unfolding get_pr_status
  get_pr_status_reads = elim (Option-cases (parse_pr_url pr_url)) [
    | inl e ↦
        rw (e, get_pr_status)
          (record { told = unknown e; consistent = λ f. ground arith; unchanged = refl })
    | inr ((repo, n), e) ↦
        rw (e, get_pr_status)
          (after_int-Ends gh pr_url old (read_pr_status gh repo n) Read
            ((read_pr_status-Read repo n e).at old refl))
  ]
