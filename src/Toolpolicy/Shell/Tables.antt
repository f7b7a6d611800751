-- ===== src/Toolpolicy/Shell/Tables.antt =====
-- The tables of internal/toolpolicy/shell.go: Go maps from names to true, as lists of the names.
use foxharness.Prelude.{String, List, [], ◌∷◌}

abbrev pub wrapper_commands : List String
wrapper_commands =
    "arch" ∷ "bsdtar" ∷ "bwrap" ∷ "busybox" ∷ "caffeinate" ∷ "chroot" ∷ "chrt" ∷ "cpio" ∷ "doas"
    ∷ "fakeroot" ∷ "faketime" ∷ "firejail" ∷ "find" ∷ "flock" ∷ "gcpio" ∷ "gfind" ∷ "gnice"
    ∷ "gruncon" ∷ "gstdbuf" ∷ "ionice" ∷ "ltrace" ∷ "nice" ∷ "nsenter" ∷ "numactl" ∷ "perf"
    ∷ "proot" ∷ "proxychains" ∷ "proxychains4" ∷ "runcon" ∷ "runuser" ∷ "script" ∷ "setarch"
    ∷ "setpriv" ∷ "gsort" ∷ "gtar" ∷ "socat" ∷ "sort" ∷ "sshpass" ∷ "strace" ∷ "sudo" ∷ "stdbuf"
    ∷ "su" ∷ "systemd-nspawn" ∷ "tar" ∷ "taskset" ∷ "time" ∷ "toybox" ∷ "unshare" ∷ "valgrind"
    ∷ "watch" ∷ []

abbrev pub interpreter_name_prefixes : List String
interpreter_name_prefixes =
    "awk" ∷ "bash" ∷ "cabal" ∷ "ccl" ∷ "chezscheme" ∷ "clisp" ∷ "clojure" ∷ "csc" ∷ "csh" ∷ "csi"
    ∷ "dash" ∷ "dart" ∷ "dotnet" ∷ "elixir" ∷ "emacs" ∷ "erb" ∷ "erl" ∷ "escript" ∷ "gforth" ∷ "ghc"
    ∷ "gdb" ∷ "gnuplot" ∷ "groovy" ∷ "guile" ∷ "ipython" ∷ "irb" ∷ "janet" ∷ "java" ∷ "jshell"
    ∷ "jrunscript" ∷ "julia" ∷ "kotlin" ∷ "ksh" ∷ "lua" ∷ "lisp" ∷ "lldb" ∷ "mono" ∷ "mysql"
    ∷ "newlisp" ∷ "node" ∷ "npm" ∷ "npx" ∷ "nvim" ∷ "ocaml" ∷ "octave" ∷ "perl" ∷ "php" ∷ "pnpm"
    ∷ "psql" ∷ "python" ∷ "pypy" ∷ "pwsh" ∷ "racket" ∷ "runghc" ∷ "runhaskell" ∷ "ruby" ∷ "scala"
    ∷ "scheme" ∷ "sqlite" ∷ "stack" ∷ "swift" ∷ "tclsh" ∷ "tsx" ∷ "ts-node" ∷ "vim" ∷ "wish"
    ∷ "yarn" ∷ "zsh" ∷ []

abbrev pub detached_shell_commands : List String
detached_shell_commands =
    "." ∷ "abduco" ∷ "anacron" ∷ "ash" ∷ "at" ∷ "atq" ∷ "atrm" ∷ "autossh" ∷ "bash" ∷ "batch"
    ∷ "bbsh" ∷ "bg" ∷ "bmake" ∷ "brew" ∷ "builtin" ∷ "bun" ∷ "byobu" ∷ "command" ∷ "coproc"
    ∷ "crond" ∷ "crontab" ∷ "csh" ∷ "daemon" ∷ "dash" ∷ "deno" ∷ "disown" ∷ "docker" ∷ "dtach"
    ∷ "dvtm" ∷ "elvish" ∷ "env" ∷ "es" ∷ "eval" ∷ "daemonize" ∷ "dc" ∷ "exec" ∷ "ex" ∷ "expect"
    ∷ "fish" ∷ "gawk" ∷ "ghci" ∷ "gio" ∷ "gmake" ∷ "gpg-agent" ∷ "jjs" ∷ "jruby" ∷ "kill"
    ∷ "killall" ∷ "ksh" ∷ "kubectl" ∷ "launchctl" ∷ "lftp" ∷ "lksh" ∷ "make" ∷ "mapfile" ∷ "mawk"
    ∷ "mksh" ∷ "mosh" ∷ "nc" ∷ "ncat" ∷ "netcat" ∷ "nawk" ∷ "nodejs" ∷ "nohup" ∷ "nu" ∷ "pdksh"
    ∷ "parallel" ∷ "pkill" ∷ "prlimit" ∷ "octave" ∷ "oksh" ∷ "open" ∷ "osascript" ∷ "osh" ∷ "podman"
    ∷ "posh" ∷ "powershell" ∷ "psql" ∷ "pwsh" ∷ "pythonw" ∷ "r" ∷ "rc" ∷ "readarray" ∷ "rbash"
    ∷ "rksh" ∷ "rsh" ∷ "rsync" ∷ "rscript" ∷ "rvim" ∷ "rview" ∷ "sash" ∷ "sbcl" ∷ "scp" ∷ "sed"
    ∷ "screen" ∷ "schtasks" ∷ "setsid" ∷ "sftp" ∷ "sh" ∷ "sh.exe" ∷ "shopt" ∷ "source" ∷ "ssh"
    ∷ "ssh-agent" ∷ "start-stop-daemon" ∷ "systemctl" ∷ "systemd-run" ∷ "tcsh" ∷ "timeout" ∷ "tmux"
    ∷ "trap" ∷ "vi" ∷ "view" ∷ "wish" ∷ "xdg-open" ∷ "xargs" ∷ "zellij" ∷ "xonsh" ∷ "genv"
    ∷ "gnohup" ∷ "gtimeout" ∷ "gxargs" ∷ "yash" ∷ "zsh" ∷ []

abbrev pub read_only_commands : List String
read_only_commands =
    "cat" ∷ "find" ∷ "git" ∷ "grep" ∷ "head" ∷ "ls" ∷ "pwd" ∷ "rg" ∷ "tail" ∷ "test" ∷ "wc" ∷ []
