-- ===== src/App/Deploy/Quoted.antt =====
-- src/deploy_manager.c: the command that downloads, and what a shell reads in it.
use aliyun_iot_arm.Prelude.{
  ℕ, ◌+◌, ◌*◌, ◌<◌, ◌≡◌, refl, ap, ◌∙◌, ◌⊎◌, inl, inr, false, none, some, List, [], ◌∷◌, ◌++◌,
  arith, ltb, Bool-cases, Option-cases, length, length-append, take_all, Bytes, codes, snprintf,
}
use aliyun_iot_arm.Utils.Shell.{shell_quote, bare, shell_quote-read_word, shell_quote_enough}
use aliyun_iot_arm.Utils.Words.{Token, word, operator, read_command, read_command-shell_quote}
use aliyun_iot_arm.App.Deploy.{DeployTask, path_max}
use aliyun_iot_arm.App.Deploy.Worker.{
  Action, run_command, Answer, Trace, run_command_capture, download_text, download_action,
  download_zip,
}

length-download_text :
    (quoted_url quoted_zip : Bytes)
    → length quoted_url < 2048
    → length quoted_zip < 8192
    → length (download_text quoted_url quoted_zip) < 65536
length-download_text quoted_url quoted_zip short short' = grind (arith, length-append)

download_zip-run :
    (outside : Action → Answer) (task : DeployTask) (zip_path : Bytes) (trace : Trace)
    (quoted_url quoted_zip : Bytes)
    → shell_quote task.download_url 2048 ≡ some quoted_url
    → shell_quote zip_path (path_max * 2) ≡ some quoted_zip
    → (download_zip outside task zip_path trace).1.actions
      ≡ trace.actions ++ (download_action quoted_url quoted_zip ∷ [])
unfolding download_zip run_command_capture
download_zip-run outside task zip_path trace quoted_url quoted_zip e e' =
    rw (e, e', download_zip) refl

-- What a shell is to read: `curl`, or `wget` where there is no `curl`, with the path behind `-o` or `-O` and
-- then the address.
abbrev pub download_tokens : (url zip_path : Bytes) → List Token
download_tokens url zip_path =
    word (codes "if")
    ∷ word (codes "command")
    ∷ word (codes "-v")
    ∷ word (codes "curl")
    ∷ operator b'>'
    ∷ word (codes "/dev/null")
    ∷ word (codes "2")
    ∷ operator b'>'
    ∷ operator b'&'
    ∷ word (codes "1")
    ∷ operator b';'
    ∷ word (codes "then")
    ∷ word (codes "curl")
    ∷ word (codes "-L")
    ∷ word (codes "--fail")
    ∷ word (codes "-o")
    ∷ word zip_path
    ∷ word url
    ∷ operator b';'
    ∷ word (codes "elif")
    ∷ word (codes "command")
    ∷ word (codes "-v")
    ∷ word (codes "wget")
    ∷ operator b'>'
    ∷ word (codes "/dev/null")
    ∷ word (codes "2")
    ∷ operator b'>'
    ∷ operator b'&'
    ∷ word (codes "1")
    ∷ operator b';'
    ∷ word (codes "then")
    ∷ word (codes "wget")
    ∷ word (codes "-O")
    ∷ word zip_path
    ∷ word url
    ∷ operator b';'
    ∷ word (codes "else")
    ∷ word (codes "echo")
    ∷ word (codes "curl or wget is required for deployProject")
    ∷ operator b'>'
    ∷ operator b'&'
    ∷ word (codes "2")
    ∷ operator b';'
    ∷ word (codes "exit")
    ∷ word (codes "127")
    ∷ operator b';'
    ∷ word (codes "fi")
    ∷ []

-- The texts of the command behind each quoted one.
abbrev last_part : Bytes
last_part = codes "; else echo 'curl or wget is required for deployProject' >&2; exit 127; fi" ++ []

abbrev middle_part : Bytes → Bytes
middle_part rest = codes "; elif command -v wget >/dev/null 2>&1; then wget -O " ++ rest

read-download_text :
    (url zip_path quoted_url quoted_zip : Bytes)
    → shell_quote url 2048 ≡ some quoted_url
    → shell_quote zip_path 8192 ≡ some quoted_zip
    → read_command bare none [] (download_text quoted_url quoted_zip)
      ≡ some (download_tokens url zip_path)
unfolding read_command
read-download_text url zip_path quoted_url quoted_zip e e' =
    let behind_zip = codes " " ++ (quoted_url ++ last_part) in
    let behind_url = middle_part (quoted_zip ++ behind_zip) in
    read_command-shell_quote zip_path quoted_zip 8192 (codes " " ++ (quoted_url ++ behind_url)) _ e'
    ∙ read_command-shell_quote url quoted_url 2048 behind_url _ e
    ∙ read_command-shell_quote zip_path quoted_zip 8192 behind_zip _ e'
    ∙ read_command-shell_quote url quoted_url 2048 last_part _ e

not_quoted : (text : Bytes) (size : ℕ) → shell_quote text size ≡ none → size < 5 * length text + 4
not_quoted text size refused = elim (Bool-cases (ltb size (5 * length text + 4))) [
  | inl e ↦ ground arith
  | inr e ↦ absurd (shell_quote_enough text size (ground arith) refused)
]

-- The download fails before it runs a command, and does nothing then, only when the address or the path is
-- too long for its buffer with each byte quoted. Otherwise it runs one command, whole in its buffer, in
-- which a shell reads the program `curl` or `wget` with the path and the address as one word each, and
-- nothing but these, whatever bytes they hold: nothing of them is taken as syntax.
pub download_zip-quoted :
    (outside : Action → Answer) (task : DeployTask) (zip_path : Bytes) (trace : Trace)
    → (((2048 < 5 * length task.download_url + 4) ⊎ (8192 < 5 * length zip_path + 4))
        × (download_zip outside task zip_path trace ≡ (false, trace)))
      ⊎ ((command : Bytes) × ((download_zip outside task zip_path trace).1.actions
            ≡ trace.actions ++ (run_command command none 300 ∷ []))
          × (read_command bare none [] command ≡ some (download_tokens task.download_url zip_path)))
unfolding download_zip
download_zip-quoted outside task zip_path trace =
    elim (Option-cases (shell_quote task.download_url 2048)) [
      | inl e ↦ inl (inl (not_quoted task.download_url 2048 e), ground (arith, e))
      | inr (quoted_url, e) ↦ elim (Option-cases (shell_quote zip_path (path_max * 2))) [
        | inl e' ↦ inl (inr (not_quoted zip_path 8192 e'), ground (arith, e, e'))
        | inr (quoted_zip, e') ↦
            let (reads, size) = shell_quote-read_word task.download_url quoted_url 2048 e in
            let (reads', size') = shell_quote-read_word zip_path quoted_zip (path_max * 2) e' in
            let whole : snprintf 65536 (download_text quoted_url quoted_zip)
                ≡ download_text quoted_url quoted_zip =
              take_all 65535 (download_text quoted_url quoted_zip)
                (omega (arith, length-download_text quoted_url quoted_zip size size')) in
            inr (
              download_text quoted_url quoted_zip,
              download_zip-run outside task zip_path trace quoted_url quoted_zip e e'
                  ∙ (ap (λ t. trace.actions ++ (run_command t none 300 ∷ [])) whole),
              read-download_text task.download_url zip_path quoted_url quoted_zip e e',
            )
      ]
    ]
