-- ===== src/ErrorNum/Codes.antt =====
-- `try_from` of usrlib_rust/src/utils/error_num.rs and the discriminants.
use parch_testbench.Prelude.{
  ℕ, ◌≡◌, ◌≢◌, ◌↔◌, refl, List, [], ◌∷◌, arith, ◌==◌, ==_iff, Bool, true, false, sym, if◌then◌else◌,
}
use parch_testbench.ErrorNum.{
  ErrorNum, noerr, eperm, enoent, esrch, eintr, eio, enxio, e2big, enoexec, ebadf, echild, eagain,
  enomem, eacces, efault, enotblk, ebusy, eexist, exdev, enodev, enotdir, eisdir, einval, enfile,
  emfile, enotty, etxtbsy, efbig, enospc, espipe, erofs, emlink, epipe, edom, erange, edeadlk,
  enametoolong, enolck, enosys, enotempty, eloop, enomsg, eidrm, echrng, el2nsync, el3hlt, el3rst,
  elnrng, eunatch, enocsi, el2hlt, ebade, ebadr, exfull, enoano, ebadrqc, ebadslt, ebfont, enostr,
  enodata, etime, enosr, enonet, enopkg, eremote, enolink, eadv, esrmnt, ecomm, eproto, emultihop,
  edotdot, ebadmsg, eoverflow, enotuniq, ebadfd, eremchg, elibacc, elibbad, elibscn, elibmax,
  elibexec, eilseq, erestart, estrpipe, eusers, enotsock, edestaddrreq, emsgsize, eprototype,
  enoprotoopt, eprotonosupport, esocktnosupport, eopnotsupp, epfnosupport, eafnosupport, eaddrinuse,
  eaddrnotavail, enetdown, enetunreach, enetreset, econnaborted, econnreset, enobufs, eisconn,
  enotconn, eshutdown, etoomanyrefs, etimedout, econnrefused, ehostdown, ehostunreach, ealready,
  einprogress, estale, euclean, enotnam, enavail, eisnam, eremoteio, edquot, enomedium, emediumtype,
  ecanceled, enokey, ekeyexpired, ekeyrevoked, ekeyrejected, eownerdead, enotrecoverable, ewrongseg,
  eempty, eoor, enotaligned, ebadtype, enotmapped, enoseg, emmaped, enosig, esigdisabled, ebadcodex,
  eeof, code, variants, Conversion, ok, err, match_arms, try_from,
}

-- Converting the discriminant of an error number gives that error number back.
pub try_from-code : (e : ErrorNum) → try_from (code e) ≡ ok e
unfolding try_from code
try_from-code noerr = refl
try_from-code eperm = refl
try_from-code enoent = refl
try_from-code esrch = refl
try_from-code eintr = refl
try_from-code eio = refl
try_from-code enxio = refl
try_from-code e2big = refl
try_from-code enoexec = refl
try_from-code ebadf = refl
try_from-code echild = refl
try_from-code eagain = refl
try_from-code enomem = refl
try_from-code eacces = refl
try_from-code efault = refl
try_from-code enotblk = refl
try_from-code ebusy = refl
try_from-code eexist = refl
try_from-code exdev = refl
try_from-code enodev = refl
try_from-code enotdir = refl
try_from-code eisdir = refl
try_from-code einval = refl
try_from-code enfile = refl
try_from-code emfile = refl
try_from-code enotty = refl
try_from-code etxtbsy = refl
try_from-code efbig = refl
try_from-code enospc = refl
try_from-code espipe = refl
try_from-code erofs = refl
try_from-code emlink = refl
try_from-code epipe = refl
try_from-code edom = refl
try_from-code erange = refl
try_from-code edeadlk = refl
try_from-code enametoolong = refl
try_from-code enolck = refl
try_from-code enosys = refl
try_from-code enotempty = refl
try_from-code eloop = refl
try_from-code enomsg = refl
try_from-code eidrm = refl
try_from-code echrng = refl
try_from-code el2nsync = refl
try_from-code el3hlt = refl
try_from-code el3rst = refl
try_from-code elnrng = refl
try_from-code eunatch = refl
try_from-code enocsi = refl
try_from-code el2hlt = refl
try_from-code ebade = refl
try_from-code ebadr = refl
try_from-code exfull = refl
try_from-code enoano = refl
try_from-code ebadrqc = refl
try_from-code ebadslt = refl
try_from-code ebfont = refl
try_from-code enostr = refl
try_from-code enodata = refl
try_from-code etime = refl
try_from-code enosr = refl
try_from-code enonet = refl
try_from-code enopkg = refl
try_from-code eremote = refl
try_from-code enolink = refl
try_from-code eadv = refl
try_from-code esrmnt = refl
try_from-code ecomm = refl
try_from-code eproto = refl
try_from-code emultihop = refl
try_from-code edotdot = refl
try_from-code ebadmsg = refl
try_from-code eoverflow = refl
try_from-code enotuniq = refl
try_from-code ebadfd = refl
try_from-code eremchg = refl
try_from-code elibacc = refl
try_from-code elibbad = refl
try_from-code elibscn = refl
try_from-code elibmax = refl
try_from-code elibexec = refl
try_from-code eilseq = refl
try_from-code erestart = refl
try_from-code estrpipe = refl
try_from-code eusers = refl
try_from-code enotsock = refl
try_from-code edestaddrreq = refl
try_from-code emsgsize = refl
try_from-code eprototype = refl
try_from-code enoprotoopt = refl
try_from-code eprotonosupport = refl
try_from-code esocktnosupport = refl
try_from-code eopnotsupp = refl
try_from-code epfnosupport = refl
try_from-code eafnosupport = refl
try_from-code eaddrinuse = refl
try_from-code eaddrnotavail = refl
try_from-code enetdown = refl
try_from-code enetunreach = refl
try_from-code enetreset = refl
try_from-code econnaborted = refl
try_from-code econnreset = refl
try_from-code enobufs = refl
try_from-code eisconn = refl
try_from-code enotconn = refl
try_from-code eshutdown = refl
try_from-code etoomanyrefs = refl
try_from-code etimedout = refl
try_from-code econnrefused = refl
try_from-code ehostdown = refl
try_from-code ehostunreach = refl
try_from-code ealready = refl
try_from-code einprogress = refl
try_from-code estale = refl
try_from-code euclean = refl
try_from-code enotnam = refl
try_from-code enavail = refl
try_from-code eisnam = refl
try_from-code eremoteio = refl
try_from-code edquot = refl
try_from-code enomedium = refl
try_from-code emediumtype = refl
try_from-code ecanceled = refl
try_from-code enokey = refl
try_from-code ekeyexpired = refl
try_from-code ekeyrevoked = refl
try_from-code ekeyrejected = refl
try_from-code eownerdead = refl
try_from-code enotrecoverable = refl
try_from-code ewrongseg = refl
try_from-code eempty = refl
try_from-code eoor = refl
try_from-code enotaligned = refl
try_from-code ebadtype = refl
try_from-code enotmapped = refl
try_from-code enoseg = refl
try_from-code emmaped = refl
try_from-code enosig = refl
try_from-code esigdisabled = refl
try_from-code ebadcodex = refl
try_from-code eeof = refl

-- An arm that answers is the one whose test passed, or one behind it.
taken_arm :
    (test : Bool) (x e : ErrorNum) (rest : Conversion) (v : ℕ)
    → (test ≡ true → code x ≡ v)
    → (rest ≡ ok e → code e ≡ v)
    → (if test then ok x else rest) ≡ ok e
    → code e ≡ v
taken_arm true x e rest v hx hr h = cc (hx refl)
taken_arm false x e rest v hx hr h = hr h

match_arms_sound : (es : List ErrorNum) (v : ℕ) (e : ErrorNum) → match_arms es v ≡ ok e → code e ≡ v
unfolding match_arms
match_arms_sound [] v e h = cc
match_arms_sound (x ∷ es) v e h =
    taken_arm (v == code x) x e (match_arms es v) v (λ q. sym ((==_iff v (code x)).0 q))
      (match_arms_sound es v e) h

-- A number is converted to an error number exactly when it is its discriminant.
pub try_from_iff : (v : ℕ) (e : ErrorNum) → (try_from v ≡ ok e) ↔ (code e ≡ v)
try_from_iff v e =
    (λ h. match_arms_sound variants v e (unfold try_from in h), λ h. rw (← h) (try_from-code e))

match_arms_miss :
    (es : List ErrorNum) (v : ℕ) → ((e : ErrorNum) → code e ≢ v) → match_arms es v ≡ err enosys
unfolding match_arms
match_arms_miss [] v h = refl
match_arms_miss (x ∷ es) v h = ground (arith, match_arms_miss es v h, h x)

-- A number that is no discriminant is refused with ENOSYS.
pub try_from_miss : (v : ℕ) → ((e : ErrorNum) → code e ≢ v) → try_from v ≡ err enosys
unfolding try_from
try_from_miss v h = match_arms_miss variants v h
