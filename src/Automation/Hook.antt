-- ===== src/Automation/Hook.antt =====
-- internal/automation/hook.go: the shell command that installs the post-receive hook.
use git_castle.Prelude.{eqb, if◌then◌else◌, String}
use git_castle.Prelude.Text.{append}
use Prim.Native.Char.{code}

-- strings.ReplaceAll(value, "'", "'\\''")
unfoldable pub escape_quotes : String → String
escape_quotes String.[] = ""
escape_quotes (String.◌∷◌ c value) =
    let rest = escape_quotes value in
    if eqb (code c) b'\'' then append "'\\''" rest else String.◌∷◌ c rest

-- quoteShell
unfoldable pub quote_shell : String → String
unfolding escape_quotes
quote_shell value = append "'" (append (escape_quotes value) "'")

-- What is baked into the hook file
pub record HookEnv : Type 0 where
  pub server_url : String
  pub token : String
  pub owner : String
  pub name : String

-- The file's text; `quote` is the verb %q of package fmt, and `script` is HookScript.
abbrev pub hook_text : (String → String) → String → HookEnv → String
hook_text quote script env = append "GITCASTLE_URL=" (
    append (quote env.server_url) (
      append "\nGITCASTLE_TOKEN=" (
        append (quote env.token) (
          append "\nGITCASTLE_OWNER=" (
            append (quote env.owner)
              (append "\nGITCASTLE_NAME=" (append (quote env.name) (append "\n" script))))))))

-- The command of InstallPostReceiveHook
unfoldable install_command : (String → String) → String → String → HookEnv → String
unfolding quote_shell
install_command quote script bare_path env =
    let hook = quote_shell (append bare_path "/hooks/post-receive") in
    append "printf '%s\\n' " (
      append (quote_shell (hook_text quote script env))
        (append " > " (append hook (append " && chmod +x " hook))))
