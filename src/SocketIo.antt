-- ===== src/SocketIo.antt =====
-- ngsend_callback and ngrecv_callback of internal_nghttp2_callbacks.c: what nghttp2 is told of `send`
-- and `recv`, as they are for unix.
use ezgrpc.Prelude.{ℕ, ◌≡◌, refl}

-- What is known of `errno`: EAGAIN or EWOULDBLOCK, which are one number on Linux, or another error.
pub data Errno : Type 0 where
  would_block other : Errno

-- What `send` or `recv` returns: a number of bytes, or -1.
pub data SocketCall : Type 0 where
  bytes : ℕ → SocketCall
  failed : Errno → SocketCall

-- A number of bytes, NGHTTP2_ERR_WOULDBLOCK or NGHTTP2_ERR_CALLBACK_FAILURE.
pub data ToNghttp2 : Type 0 where
  done : ℕ → ToNghttp2
  err_wouldblock err_callback_failure : ToNghttp2

unfoldable pub ngsend_callback : SocketCall → ToNghttp2
ngsend_callback (SocketCall.bytes n) = done n
ngsend_callback (SocketCall.failed Errno.would_block) = err_wouldblock
ngsend_callback (SocketCall.failed Errno.other) = err_callback_failure

-- At the end of what the client sends `recv` returns zero, and so does the callback.
unfoldable pub ngrecv_callback : SocketCall → ToNghttp2
ngrecv_callback (SocketCall.bytes n) = done n
ngrecv_callback (SocketCall.failed Errno.would_block) = err_wouldblock
ngrecv_callback (SocketCall.failed Errno.other) = err_callback_failure

at_end : ngrecv_callback (SocketCall.bytes 0) ≡ done 0
unfolding ngrecv_callback
at_end = refl

blocked : ngsend_callback (SocketCall.failed Errno.would_block) ≡ err_wouldblock
unfolding ngsend_callback
blocked = refl
