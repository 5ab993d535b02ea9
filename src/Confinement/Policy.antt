-- ===== src/Confinement/Policy.antt =====
-- The lists of scripts/replay-confinement-audit.py. A pattern without repetition is the list of the
-- texts that it matches.
use rpmz.Base.{List, [], ◌∷◌, ◌++◌, Text, texts, expand}

unfoldable pub allowed_imports : List Text
allowed_imports = texts (
    "std" ∷ "builtin" ∷ "client_abi" ∷ "bundle_reader" ∷ "bundle_selection" ∷ "canonical_json"
    ∷ "content_digest" ∷ "transaction.zig" ∷ "repomd_client_exports" ∷ "rpm_gpgcheck" ∷ "rpm_header"
    ∷ "transaction_bundle" ∷ "transaction_lock" ∷ "transaction_plan" ∷ "rpm_txn_config"
    ∷ "rpm_package_test" ∷ "verified_fetch" ∷ [])

unfoldable pub allowed_verified_fetch_members : List Text
allowed_verified_fetch_members = texts ("verifyOpen" ∷ [])

unfoldable pub allowed_repomd_members : List Text
allowed_repomd_members = texts ("available_repository_loader" ∷ "solver_rules" ∷ [])

unfoldable pub forbidden_internal_member_tokens : List Text
forbidden_internal_member_tokens = texts (
    "client_download" ∷ "remoterepo" ∷ "solver_live" ∷ "download" ∷ "fetch" ∷ "Fetcher"
    ∷ "fetchVerified" ∷ "fetchToFile" ∷ "curl" ∷ [])

unfoldable pub forbidden_reflection_builtins : List Text
forbidden_reflection_builtins = texts (
    "field" ∷ "fieldParentPtr" ∷ "hasDecl" ∷ "hasField" ∷ "typeInfo" ∷ "Type" ∷ "TypeOf"
    ∷ "unionInit" ∷ [])

unfoldable pub socket_calls : List Text
socket_calls = texts (
    "socket" ∷ "socketpair" ∷ "connect" ∷ "bind" ∷ "listen" ∷ "accept" ∷ "accept4" ∷ "send"
    ∷ "sendto" ∷ "sendmsg" ∷ "sendmmsg" ∷ "recv" ∷ "recvfrom" ∷ "recvmsg" ∷ "recvmmsg" ∷ "shutdown"
    ∷ "getsockname" ∷ "getpeername" ∷ "getsockopt" ∷ "setsockopt" ∷ "getaddrinfo" ∷ "freeaddrinfo"
    ∷ "getnameinfo" ∷ "inet_pton" ∷ "inet_ntop" ∷ [])

-- `SOCKET_SYMBOL_PATTERN`
unfoldable pub socket_symbols : List Text
unfolding expand socket_calls
socket_symbols = expand (
    texts ("__" ∷ "" ∷ [])
    ∷ texts ("WSA" ∷ "" ∷ [])
    ∷ socket_calls
    ∷ texts ("A" ∷ "W" ∷ "" ∷ [])
    ∷ [])

unfoldable pub windows_socket_symbols : List Text
windows_socket_symbols = texts (
    "wsaconnectbynamea" ∷ "wsaconnectbynamew" ∷ "wsaconnectbylist" ∷ "getaddrinfoexa"
    ∷ "getaddrinfoexw" ∷ "freeaddrinfoex" ∷ "freeaddrinfoexw" ∷ [])

unfoldable pub forbidden_dynamic_lookup_tokens : List Text
forbidden_dynamic_lookup_tokens = texts (
    "dynlib" ∷ "dlopen" ∷ "dlmopen" ∷ "dlsym" ∷ "dlvsym" ∷ "loadlibrarya" ∷ "loadlibraryw"
    ∷ "loadlibraryexa" ∷ "loadlibraryexw" ∷ "loadpackagedlibrary" ∷ "getprocaddress"
    ∷ "getprocaddressforcaller" ∷ "ldrloaddll" ∷ "ldrunloaddll" ∷ "ldrgetprocedureaddress"
    ∷ "ldrgetprocedureaddressex" ∷ "ldrgetdllhandle" ∷ "ldrgetdllhandleex"
    ∷ "ldrgetdllhandlebymapping" ∷ "ldrgetdllhandlebyname" ∷ [])

unfoldable pub forbidden_process_tokens : List Text
forbidden_process_tokens = texts (
    "process" ∷ "spawn" ∷ "spawnpath" ∷ "exec" ∷ "execl" ∷ "execle" ∷ "execlp" ∷ "execv" ∷ "execve"
    ∷ "execvp" ∷ "execvpe" ∷ "fexecve" ∷ "posix_spawn" ∷ "posix_spawnp" ∷ "system" ∷ "popen"
    ∷ "pclose" ∷ "createprocessa" ∷ "createprocessw" ∷ "createprocessasusera"
    ∷ "createprocessasuserw" ∷ "createprocesswithlogonw" ∷ "createprocesswithtokenw"
    ∷ "shellexecutea" ∷ "shellexecutew" ∷ "shellexecuteexa" ∷ "shellexecuteexw" ∷ "winexec" ∷ [])

unfoldable pub forbidden_process_member_tokens : List Text
forbidden_process_member_tokens = texts ("Child" ∷ "run" ∷ "spawn" ∷ "spawnPath" ∷ [])

unfoldable pub forbidden_resolver_tokens : List Text
forbidden_resolver_tokens = texts (
    "gethostbyname" ∷ "gethostbyname2" ∷ "gethostbyaddr" ∷ "gethostbyname_r" ∷ "gethostbyname2_r"
    ∷ "gethostbyaddr_r" ∷ "getaddrinfo_a" ∷ "gai_suspend" ∷ "gai_cancel" ∷ "gai_error"
    ∷ "getipnodebyname" ∷ "getipnodebyaddr" ∷ "freehostent" ∷ "res_init" ∷ "res_query"
    ∷ "res_search" ∷ "res_send" ∷ "res_nquery" ∷ "res_nsearch" ∷ "res_nsend" ∷ "res_querydomain"
    ∷ "res_nquerydomain" ∷ "res_mkquery" ∷ "res_nmkquery" ∷ "res_close" ∷ "res_nclose" ∷ "res_ninit"
    ∷ "res_ndestroy" ∷ "res_nsendsigned" ∷ "res_send_setqhook" ∷ "res_send_setrhook" ∷ "dn_expand"
    ∷ "ns_initparse" ∷ "ns_parserr" ∷ [])

unfoldable pub forbidden_network_tokens : List Text
forbidden_network_tokens = texts (
    "http" ∷ "net" ∷ "posix" ∷ "socketcall" ∷ "syscall" ∷ "syscall0" ∷ "syscall1" ∷ "syscall2"
    ∷ "syscall3" ∷ "syscall4" ∷ "syscall5" ∷ "syscall6" ∷ [])

-- `WINDOWS_RESOLVER_SYMBOL_PATTERN`
unfoldable pub windows_resolver_symbols : List Text
unfolding expand
windows_resolver_symbols =
    expand (texts ("DnsQuery" ∷ []) ∷ texts ("_A" ∷ "_W" ∷ "_UTF8" ∷ "Ex" ∷ "Raw" ∷ "" ∷ []) ∷ [])
    ++ (expand (
          texts ("GetAddrInfo" ∷ [])
          ∷ texts ("A" ∷ "W" ∷ "ExA" ∷ "ExW" ∷ "ExCancel" ∷ "ExOverlappedResult" ∷ "" ∷ [])
          ∷ [])
        ++ expand (
            texts ("GetHostBy" ∷ [])
            ∷ texts ("Name" ∷ "Name2" ∷ "Addr" ∷ [])
            ∷ texts ("A" ∷ "W" ∷ "" ∷ [])
            ∷ []))
