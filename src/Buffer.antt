-- ===== src/Buffer.antt =====
-- Buffer.h is used by SrcFile/TcpConnection.h and is not in the repository (Info/Buffer.txt describes
-- it): a buffer is an interface, with what its documentation says of the bytes between `peek()` and
-- `peek() + readableBytes()`.
use simple_net_base.Prelude.{ℕ, ◌≤◌, ◌≡◌, List, ◌++◌, length, drop, refl, []}

pub record BufferOps : Type 1 where
  pub Buffer : Type 0
  pub empty : Buffer
  pub contents : Buffer → List ℕ
  pub append : List ℕ → Buffer → Buffer
  pub retrieve : ℕ → Buffer → Buffer
  pub contents-empty : contents empty ≡ []
  pub contents-append : (d : List ℕ) (b : Buffer) → contents (append d b) ≡ contents b ++ d
  pub contents-retrieve :
      (n : ℕ) (b : Buffer) → n ≤ length (contents b) → contents (retrieve n b) ≡ drop n (contents b)

-- Plain lists are such buffers.
abbrev pub list_buffer : BufferOps
list_buffer = record {
  Buffer = List ℕ;
  empty = [];
  contents = λ b. b;
  append = λ d b. b ++ d;
  retrieve = λ n b. drop n b;
  contents-empty = refl;
  contents-append = λ d b. refl;
  contents-retrieve = λ n b h. refl;
}
