-- ===== src/Github/Client.antt =====
-- The functions of `create_github_client` in github_tools.py. Logging is left out.
use bulletfarm.Prelude.{
  ℕ, String, ◌<>◌, Bool, true, false, ◌&&◌, not, Option, none, some, List, [], ◌∷◌, ◌++◌, map, any,
  decimal, beq, ◌==◌, if◌then◌else◌,
}
use bulletfarm.Prelude.Exec.{
  Exn, ExnKind, github_error, other_error, pure, raise, attempt, ◌>>=◌, ◌>>◌,
}
use bulletfarm.Outside.{Label, PullRequest, Call, Act, Github, call}
use bulletfarm.Github.PrUrl.{max_str_digits, number_length, is_too_long, parse_pr_url}

abbrev pub label_prefix : String
label_prefix = "bulletfarm"

pub record PrInfo : Type 0 where
  pub url : String
  pub number : ℕ

pub record PrStatus : Type 0 where
  pub state : String
  pub merged : Bool
  pub draft : Bool

pub record CleanupResult : Type 0 where
  pub pr_closed : Bool
  pub branch_deleted : Bool

pub record RepoInfo : Type 0 where
  pub name : String
  pub default_branch : String
  pub description : String

abbrev pub label_name : Label → String
label_name l = l.name

-- The labels that `create_draft_pr` puts on a pull request.
unfoldable pub labels_to_create : String → String → List Label
labels_to_create task_id agent_ref =
    (record {
      name = label_prefix <> "/agent";
      color = "0075ca";
      description = "Created by BulletFarm agent";
    }
      ∷ [])
    ++ (if task_id == ""
        then []
        else record {
          name = label_prefix <> "/task:" <> task_id;
          color = "e4e669";
          description = "Task: " <> task_id;
        }
          ∷ [])
    ++ (if agent_ref == ""
        then []
        else record {
          name = label_prefix <> "/agent:" <> agent_ref;
          color = "7057ff";
          description = "Agent: " <> agent_ref;
        }
          ∷ [])

-- `except GithubException: pass`; any other exception comes through
unfoldable pub pass_kind : ExnKind → Exn → Act (Unit {0})
pass_kind github_error exc = pure tt
pass_kind _ exc = raise exc

abbrev pub pass_github_error : Exn → Act (Unit {0})
pass_github_error exc = pass_kind exc.kind exc

unfoldable pub description_text : Option String → String
description_text none = ""
description_text (some s) = s

-- The ValueError of `int` for too many digits.
unfoldable pub too_many_digits : String → Exn
unfolding number_length
too_many_digits pr_url = record {
  kind = other_error;
  message =
      "Exceeds the limit ("
      <> decimal max_str_digits
      <> " digits) for integer string conversion: value has "
      <> elim (number_length pr_url) [ none ↦ "0" | some n ↦ decimal n ]
      <> " digits; use sys.set_int_max_str_digits() to increase the limit";
}

-- `int(match.group(2))`, and what follows it.
unfoldable pub after_int : {A : Type 0} → String → Act A → Act A
unfolding is_too_long too_many_digits
after_int pr_url m = if is_too_long pr_url then raise (too_many_digits pr_url) else m

abbrev pub not_cleaned : CleanupResult
not_cleaned = record { pr_closed = false; branch_deleted = false }

module _ (gh : Github) where
  -- The loop of `_ensure_labels`.
  unfoldable pub create_missing : String → List String → List Label → Act (Unit {0})
  unfolding pass_kind
  create_missing repo existing [] = pure tt
  create_missing repo existing (label ∷ labels) =
      (if any (λ name. name == label.name) existing
        then pure tt
        else attempt (call gh.create_label (Call.create_label repo label)) pass_github_error)
      >> create_missing repo existing labels

  unfoldable pub ensure_labels : String → List Label → Act (Unit {0})
  unfolding create_missing
  ensure_labels repo labels = do
    existing ← call gh.get_labels (Call.get_labels repo)
    create_missing repo existing labels

  unfoldable pub create_draft_pr : String → PullRequest → String → String → Act PrInfo
  unfolding labels_to_create
  create_draft_pr repo_name pull task_id agent_ref = do
    repo ← call gh.get_repo (Call.get_repo repo_name)
    let labels = labels_to_create task_id agent_ref
    ensure_labels repo.full_name labels
    pr ← call gh.create_pull (Call.create_pull repo.full_name pull)
    call gh.set_labels (Call.set_labels repo.full_name pr.number (map label_name labels))
    pure (record { url = pr.html_url; number = pr.number })

  unfoldable pub get_repo_info : String → Act RepoInfo
  unfolding description_text
  get_repo_info repo_name = do
    repo ← call gh.get_repo (Call.get_repo repo_name)
    pure (record {
      name = repo.full_name;
      default_branch = repo.default_branch;
      description = description_text repo.description;
    })

  abbrev pub failed_status : String → PrStatus
  failed_status state = record { state = state; merged = false; draft = false }

  unfoldable pub read_pr_status : String → ℕ → Act PrStatus
  read_pr_status repo_name pr_number =
      attempt
        (do
          repo ← call gh.get_repo (Call.get_repo repo_name)
          pr ← call gh.get_pull (Call.get_pull repo.full_name pr_number)
          pure (record {
            state = if pr.merged then "merged" else pr.state;
            merged = pr.merged;
            draft = pr.draft;
          }))
        (λ exc. pure (failed_status "error"))

  unfoldable pub get_pr_status : String → Act PrStatus
  unfolding read_pr_status after_int
  get_pr_status pr_url = elim (parse_pr_url pr_url) [
    | none ↦ pure (failed_status "unknown")
    | some (repo_name, pr_number) ↦ after_int pr_url (read_pr_status repo_name pr_number)
  ]

  unfoldable pub mark_ready_at : String → ℕ → Act Bool
  mark_ready_at repo_name pr_number = do
    repo ← call gh.get_repo (Call.get_repo repo_name)
    pr ← call gh.get_pull (Call.get_pull repo.full_name pr_number)
    if pr.node_id == "" then pure false else (do
      resp ← call gh.graphql (Call.mark_ready pr.node_id)
      pure (beq resp.status_code 200 && not resp.has_errors))

  unfoldable pub mark_pr_ready : String → Act Bool
  unfolding mark_ready_at after_int
  mark_pr_ready pr_url = elim (parse_pr_url pr_url) [
    | none ↦ pure false
    | some (repo_name, pr_number) ↦ after_int pr_url (mark_ready_at repo_name pr_number)
  ]

  -- The deletion of the branch, whose failure is only logged.
  unfoldable pub cleanup_branch : String → String → Act Bool
  cleanup_branch repo head_ref =
      attempt
        (do
          call gh.get_git_ref (Call.get_git_ref repo ("heads/" <> head_ref))
          call gh.delete_git_ref (Call.delete_git_ref repo ("heads/" <> head_ref))
          pure true)
        (λ exc. pure false)

  -- What may raise here does so before either field of the result is set.
  unfoldable pub cleanup_at : String → ℕ → Act CleanupResult
  unfolding cleanup_branch
  cleanup_at repo_name pr_number =
      attempt
        (do
          repo ← call gh.get_repo (Call.get_repo repo_name)
          pr ← call gh.get_pull (Call.get_pull repo.full_name pr_number)
          closed ←
              if pr.state == "open"
              then (do call gh.close_pull (Call.close_pull repo.full_name pr.number); pure true)
              else pure false
          deleted ← cleanup_branch repo.full_name pr.head_ref
          pure (record { pr_closed = closed; branch_deleted = deleted }))
        (λ exc. pure not_cleaned)

  unfoldable pub cleanup_pr : String → Act CleanupResult
  unfolding cleanup_at after_int
  cleanup_pr pr_url = elim (parse_pr_url pr_url) [
    | none ↦ pure not_cleaned
    | some (repo_name, pr_number) ↦ after_int pr_url (cleanup_at repo_name pr_number)
  ]

  unfoldable pub delete_branch : String → String → Act Bool
  delete_branch repo_name branch_name =
      attempt
        (do
          repo ← call gh.get_repo (Call.get_repo repo_name)
          call gh.get_git_ref (Call.get_git_ref repo.full_name ("heads/" <> branch_name))
          call gh.delete_git_ref (Call.delete_git_ref repo.full_name ("heads/" <> branch_name))
          pure true)
        (λ exc. pure false)

  unfoldable pub comment_at : String → ℕ → String → Act Bool
  comment_at repo_name pr_number comment =
      attempt
        (do
          repo ← call gh.get_repo (Call.get_repo repo_name)
          call gh.get_issue (Call.get_issue repo.full_name pr_number)
          call gh.create_comment (Call.create_comment repo.full_name pr_number comment)
          pure true)
        (λ exc. pure false)

  -- By the match of the address.
  unfoldable pub comment_parsed : String → Option (String × ℕ) → String → Act Bool
  unfolding comment_at after_int
  comment_parsed pr_url none comment = pure false
  comment_parsed pr_url (some (repo_name, pr_number)) comment =
      after_int pr_url (comment_at repo_name pr_number comment)

  unfoldable pub comment_on_pr : String → String → Act Bool
  unfolding comment_parsed
  comment_on_pr pr_url comment = comment_parsed pr_url (parse_pr_url pr_url) comment
