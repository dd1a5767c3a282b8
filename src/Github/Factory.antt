-- ===== src/Github/Factory.antt =====
-- `GitHubClient` of github_tools.py, the interface that the agent and the routes are given, and its
-- factory.
use bulletfarm.Prelude.{String, Bool}
use bulletfarm.Outside.{PullRequest, Act, Github}
use bulletfarm.Github.Client
use bulletfarm.Github.Client.{PrInfo, PrStatus, CleanupResult, RepoInfo}

-- The head, the base, the title and the body of a pull request are one argument here.
pub record GithubClient : Type 0 where
  pub create_draft_pr : String → PullRequest → String → String → Act PrInfo
  pub get_repo_info : String → Act RepoInfo
  pub get_pr_status : String → Act PrStatus
  pub mark_pr_ready : String → Act Bool
  pub comment_on_pr : String → String → Act Bool
  pub cleanup_pr : String → Act CleanupResult
  pub delete_branch : String → String → Act Bool

-- `create_github_client`, by the client of the token
unfoldable pub create_github_client : Github → GithubClient
create_github_client client = record {
  create_draft_pr = Client.create_draft_pr client;
  get_repo_info = Client.get_repo_info client;
  get_pr_status = Client.get_pr_status client;
  mark_pr_ready = Client.mark_pr_ready client;
  comment_on_pr = Client.comment_on_pr client;
  cleanup_pr = Client.cleanup_pr client;
  delete_branch = Client.delete_branch client;
}
