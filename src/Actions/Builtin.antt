-- ===== src/Actions/Builtin.antt =====
-- internal/model/action_contract.go: `DefaultActionRegistry`.
use fleetlift.Prelude.{String, Bool, true, false, [], ◌∷◌}
use fleetlift.Actions.{FieldContract, ActionContract, Registry, register}

abbrev field : String → String → Bool → String → FieldContract
field name type required description = record {
  name = name;
  type = type;
  required = required;
  description = description;
}

abbrev pub slack_notify : ActionContract
slack_notify = record {
  type = "slack_notify";
  description = "Send a Slack notification to a channel";
  inputs =
      field "channel" "string" true "Slack channel"
      ∷ field "message" "string" true "Message text"
      ∷ field "thread_ts" "string" false "Thread timestamp to reply in"
      ∷ [];
  outputs =
      field "status" "string" true "sent | failed"
      ∷ field "channel" "string" true "Channel message was sent to"
      ∷ [];
  credentials = "SLACK_BOT_TOKEN" ∷ [];
}

abbrev pub github_pr_review : ActionContract
github_pr_review = record {
  type = "github_pr_review";
  description = "Post a review comment on a GitHub pull request";
  inputs =
      field "repo_url" "string" true "GitHub repository URL"
      ∷ field "pr_number" "int" true "Pull request number"
      ∷ field "summary" "string" true "Review summary text"
      ∷ [];
  outputs =
      field "status" "string" true "posted | skipped | failed"
      ∷ field "review_id" "int" false "GitHub review ID"
      ∷ field "reason" "string" false "Reason when skipped"
      ∷ [];
  credentials = "GITHUB_TOKEN" ∷ [];
}

abbrev pub github_label : ActionContract
github_label = record {
  type = "github_label";
  description = "Add labels to a GitHub issue";
  inputs =
      field "repo_url" "string" true "GitHub repository URL"
      ∷ field "issue_number" "int" true "Issue number"
      ∷ field "labels" "array" true "Labels to apply"
      ∷ [];
  outputs =
      field "status" "string" true "labeled | failed"
      ∷ field "labels" "array" true "Applied labels"
      ∷ [];
  credentials = "GITHUB_TOKEN" ∷ [];
}

abbrev pub github_comment : ActionContract
github_comment = record {
  type = "github_comment";
  description = "Post a comment on a GitHub issue";
  inputs =
      field "repo_url" "string" true "GitHub repository URL"
      ∷ field "issue_number" "int" true "Issue number"
      ∷ field "body" "string" true "Comment body"
      ∷ [];
  outputs =
      field "status" "string" true "posted | failed"
      ∷ field "comment_id" "int" true "GitHub comment ID"
      ∷ [];
  credentials = "GITHUB_TOKEN" ∷ [];
}

abbrev pub create_pr : ActionContract
create_pr = record {
  type = "create_pr";
  description = "Create a pull request (handled by dedicated activity, not ExecuteAction)";
  inputs =
      field "branch_prefix" "string" false "Branch name prefix"
      ∷ field "title" "string" true "PR title"
      ∷ field "draft" "bool" false "Create as draft PR"
      ∷ [];
  outputs = field "status" "string" true "skipped_in_action" ∷ [];
  credentials = [];
}

abbrev pub github_fetch_pr : ActionContract
github_fetch_pr = record {
  type = "github_fetch_pr";
  description = "Fetch PR metadata and unified diff from GitHub API (no sandbox)";
  inputs =
      field "repo_url" "string" true "GitHub repository URL"
      ∷ field "pr_number" "int" true "Pull request number"
      ∷ [];
  outputs =
      field "diff" "string" true "Unified diff of the PR"
      ∷ field "title" "string" true "PR title"
      ∷ field "base_branch" "string" true "Base branch name"
      ∷ field "changed_files" "array" true "List of changed file paths"
      ∷ field "additions" "int" true "Total lines added"
      ∷ field "deletions" "int" true "Total lines deleted"
      ∷ [];
  credentials = "GITHUB_TOKEN" ∷ [];
}

abbrev pub github_pr_review_inline : ActionContract
github_pr_review_inline = record {
  type = "github_pr_review_inline";
  description =
      "Post inline review comments on a GitHub PR using file line numbers and side (LEFT/RIGHT)";
  inputs =
      field "repo_url" "string" true "GitHub repository URL"
      ∷ field "pr_number" "int" true "Pull request number"
      ∷ field "annotations" "string" true "JSON array of {file, line, side, body} objects"
      ∷ field "commit_id" "string" false "Commit SHA to attach review to (uses PR head if omitted)"
      ∷ [];
  outputs =
      field "posted" "int" true "Number of annotations successfully posted"
      ∷ field "skipped" "int" true "Number of annotations skipped"
      ∷ field "skipped_details" "array" false "Details of skipped annotations"
      ∷ [];
  credentials = "GITHUB_TOKEN" ∷ [];
}

abbrev pub github_update_comment : ActionContract
github_update_comment = record {
  type = "github_update_comment";
  description = "Update the body of an existing GitHub issue/PR comment";
  inputs =
      field "repo_url" "string" true "GitHub repository URL"
      ∷ field "comment_id" "int" true "Comment ID to update"
      ∷ field "body" "string" true "New comment body"
      ∷ [];
  outputs =
      field "status" "string" true "updated | failed"
      ∷ field "comment_id" "int" true "Updated comment ID"
      ∷ [];
  credentials = "GITHUB_TOKEN" ∷ [];
}

-- The registrations, in order.
unfoldable pub default_registry : Registry
unfolding register
default_registry = register github_update_comment (
    register github_pr_review_inline (
      register github_fetch_pr (
        register create_pr (
          register github_comment
            (register github_label (register github_pr_review (register slack_notify [])))))))
