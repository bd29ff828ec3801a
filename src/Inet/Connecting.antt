-- ===== src/Inet/Connecting.antt =====
-- The descriptor that `server_connect` of source/inet-private.c opens.
use sdistr2020_group.Prelude.{◌≡◌, ◌+◌, ℤ, arith, times}
use sdistr2020_group.Inet.{opened_by, ConnectCalls, server_connect}

-- However far it came, a call that connects to a server has closed the socket that it opened, or
-- returns it open: nothing is left over, and nothing is closed twice.
pub server_connect_balanced :
    (d : ℤ) (calls : ConnectCalls)
    → times d (opened_by calls.socket)
      ≡ times d (server_connect calls).0 + times d (opened_by (server_connect calls).1)
unfolding server_connect
server_connect_balanced d calls = ground arith
