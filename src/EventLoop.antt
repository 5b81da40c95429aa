-- ===== src/EventLoop.antt =====
-- base/event_loop.cc, the flags of `IoTask`, and base/file_descriptor.h and file_descriptor.cc.
use cheaproute.Prelude.{
  ℕ, zero, suc, Bool, not, Option, none, some, List, [], ◌∷◌, ◌++◌, ◌==◌, if◌then◌else◌, bit_and,
  bit_or, ◌≡◌, sym, ◌∙◌, append-nil, append_assoc,
}
use cheaproute.Prelude.Int.{ℤ, pos, negsuc}

-- `EV_READ` and `EV_WRITE` of libev.
pub record EvBits : Type 0 where
  pub ev_read : ℕ
  pub ev_write : ℕ

abbrev k_ev_read : ℕ
k_ev_read = 0x01

abbrev k_ev_write : ℕ
k_ev_write = 0x02

abbrev has : ℕ → ℕ → Bool
has flags bit = not (bit_and flags bit == 0)

-- What the constructor of `IoTask` watches for.
unfoldable pub ev_flags : EvBits → ℕ → ℕ
ev_flags ev flags =
    bit_or (if has flags k_ev_read then ev.ev_read else 0)
      (if has flags k_ev_write then ev.ev_write else 0)

-- What `HandleFunctionRead` computes from the events that came.
unfoldable pub came : EvBits → ℕ → ℕ
came ev revents =
    if has revents ev.ev_read then k_ev_read else if has revents ev.ev_write then k_ev_write else 0

-- What it calls the function with: the events themselves, and not the flags.
unfoldable pub function_argument : EvBits → ℕ → ℕ
function_argument ev revents = revents

-- `FileDescriptor`, -1 if it has none, with the descriptors that were closed.
pub record FileDescriptor : Type 0 where
  pub fd : ℤ
  pub closed : List ℤ

abbrev pub new_descriptor : FileDescriptor
new_descriptor = record { fd = negsuc 0; closed = [] }

-- Not -1.
abbrev pub held : ℤ → List ℤ
held (pos n) = pos n ∷ []
held (negsuc zero) = []
held (negsuc (suc n)) = negsuc (suc n) ∷ []

-- `set`
unfoldable pub set : ℤ → FileDescriptor → FileDescriptor
set value d = record { fd = value; closed = d.closed ++ held d.fd }

-- The destructor, whose body is empty.
unfoldable pub destroy : FileDescriptor → FileDescriptor
destroy d = d

-- `CheckFdOp`; none where it aborts.
unfoldable pub check_fd_op : ℤ → Option ℤ
check_fd_op (negsuc zero) = none
check_fd_op result = some result

unfoldable pub set_all : List ℤ → FileDescriptor → FileDescriptor
unfolding set
set_all [] d = d
set_all (value ∷ values) d = set_all values (set value d)

pub all_held : List ℤ → List ℤ
all_held [] = []
all_held (value ∷ values) = held value ++ all_held values

-- Of the descriptors that are set one after another, each but the last is closed once, in order; the
-- last, which is held when the object is destroyed, is not closed.
pub set_all-closes :
    (values : List ℤ) (d : FileDescriptor)
    → (destroy (set_all values d)).closed ++ held (set_all values d).fd
      ≡ (d.closed ++ held d.fd) ++ all_held values
unfolding set_all destroy all_held
set_all-closes [] d = sym (append-nil _)
set_all-closes (value ∷ values) d =
    set_all-closes values (set value d)
    ∙ unfold set in append_assoc (d.closed ++ held d.fd) (held value) (all_held values)
