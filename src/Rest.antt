-- ===== src/Rest.antt =====
-- main/rest_ops.cpp: how the body of a request is read, and the reply to it. The socket is the HTTP
-- server's: what its reads answer is a list, and the connection is closed behind its end.
pub mod Chunks
use zhac_net_core.Base.{
  ℕ, ◌-◌, Bool, true, false, ◌&&◌, not, List, [], ◌∷◌, ◌++◌, Option, none, some, ltb, leb, ◌==◌,
  if◌then◌else◌, length, take, codes,
}

abbrev pub Bytes : Type 0
Bytes = List ℕ

-- The answers of `httpd_req_recv`; `arrived` is what has come, of which one read takes what fits.
pub data Recv : Type 0 where
  timeout closed : Recv
  arrived : (bytes : Bytes) → Recv

-- A reply: its status and its text.
pub data Reply : Type 0 where
  reply : (status : ℕ) → (text : Bytes) → Reply

-- `none` is a refusal without a reply.
pub data Body : Type 0 where
  refused : Option Reply → Body
  received : (bytes : Bytes) → Body

-- The loop, with what it has read. A read that ends it is the last.
unfoldable pub recv_loop : (content_len cap : ℕ) → (got : Bytes) → List Recv → Bytes
recv_loop content_len cap got [] = got
recv_loop content_len cap got (timeout ∷ rs) =
    let rest = recv_loop content_len cap got rs in if ltb (length got) (cap - 1) then rest else got
recv_loop content_len cap got (closed ∷ rs) = got
recv_loop content_len cap got (arrived bytes ∷ rs) =
    let more = got ++ take (cap - 1 - length got) bytes in
    let rest = recv_loop content_len cap more rs in
    if not (ltb (length got) (cap - 1))
    then got
    else if length bytes == 0
    then got
    else if not (content_len == 0) && leb content_len (length more)
    then more
    else rest

abbrev pub nonempty_body : Bytes → Body
nonempty_body [] = refused (some (reply 400 (codes "empty body")))
nonempty_body (b ∷ bs) = received (b ∷ bs)

unfoldable pub rest_body_recv : (content_len cap : ℕ) → List Recv → Body
unfolding recv_loop
rest_body_recv content_len cap answers =
    if cap == 0
    then refused none
    else if leb cap content_len
    then refused (some (reply 413 (codes "request body too large")))
    else nonempty_body (recv_loop content_len cap [] answers)
