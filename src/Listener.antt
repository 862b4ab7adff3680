-- ===== src/Listener.antt =====
-- `removeIfSocket` and `isStaleUnixSocketDialError` of pkg/hostagent/server.go.
pub mod Removal
use integration_suricata_n_d.Base.{
  Bool, true, false, not, ◌||◌, Option, none, some, ◌++◌, if◌then◌else◌, Bytes, codes, [],
}
use integration_suricata_n_d.Sys.{
  not_exist, conn_refused, Error, msg, wrap, is_kind, Result, ok, err, Node, M, stat, remove,
  dial_timeout, is_socket,
}

-- ECONNREFUSED or ENOENT, wherever `errors.As` and `errors.Is` find it.
unfoldable pub is_stale : Error → Bool
is_stale e = is_kind conn_refused e || is_kind not_exist e

-- From the connection on. A connection that is made is closed.
unfoldable pub remove_stale : Bytes → M (Option Error)
remove_stale path w =
    let (d, w') = dial_timeout path w in
    elim d [
      | none ↦ (
        some (msg (codes "unix socket already in use (another process is listening): " ++ path)),
        w',
      )
      | some e ↦
          if not (is_stale e)
          then (
            some (
                wrap
                  (codes "cannot remove unix socket "
                    ++ (path ++ codes ": dial failed with unexpected error: "))
                  e []),
            w',
          )
          else (let (r, w'') = remove path w' in
              (
                elim r [
                  | none ↦ none
                  | some x ↦
                      some
                        (wrap (codes "failed to remove unix socket " ++ (path ++ codes ": ")) x [])
                ],
                w'',
              ))
    ]

-- `Lstat` is a look at the path: the model has no symbolic links.
unfoldable pub remove_if_socket : Bytes → M (Option Error)
remove_if_socket path w =
    let (s, w') = stat path w in
    elim s [
      | err e ↦ (
        if is_kind not_exist e
            then none
            else some (wrap (codes "cannot access socket path " ++ (path ++ codes ": ")) e []),
        w',
      )
      | ok n ↦
          if not (is_socket n.kind)
          then (some (msg (codes "socket path exists but is not a unix socket: " ++ path)), w')
          else remove_stale path w'
    ]
