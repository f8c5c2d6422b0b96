-- ===== src/ErrorNum/Debug.antt =====
-- `#[derive(Debug)]` of `ErrorNum` in usrlib_rust/src/utils/error_num.rs: the name of the variant.
use parch_testbench.Prelude.{Text, codes}
use parch_testbench.ErrorNum.{
  ErrorNum, noerr, eperm, enoent, esrch, eintr, eio, enxio, e2big, enoexec, ebadf, echild, eagain,
  enomem, eacces, efault, enotblk, ebusy, eexist, exdev, enodev, enotdir, eisdir, einval, enfile,
  emfile, enotty, etxtbsy, efbig, enospc, espipe, erofs, emlink, epipe, edom, erange, edeadlk,
  enametoolong, enolck, enosys, enotempty, eloop, enomsg, eidrm, echrng, el2nsync, el3hlt, el3rst,
  elnrng, eunatch, enocsi, el2hlt, ebade, ebadr, exfull, enoano, ebadrqc, ebadslt, ebfont, enostr,
  enodata, etime, enosr, enonet, enopkg, eremote, enolink, eadv, esrmnt, ecomm, eproto, emultihop,
  edotdot, ebadmsg, eoverflow, enotuniq, ebadfd, eremchg, elibacc, elibbad, elibscn, elibmax,
  elibexec, eilseq, erestart, estrpipe, eusers, enotsock, edestaddrreq, emsgsize, eprototype,
  enoprotoopt, eprotonosupport, esocktnosupport, eopnotsupp, epfnosupport, eafnosupport, eaddrinuse,
  eaddrnotavail, enetdown, enetunreach, enetreset, econnaborted, econnreset, enobufs, eisconn,
  enotconn, eshutdown, etoomanyrefs, etimedout, econnrefused, ehostdown, ehostunreach, ealready,
  einprogress, estale, euclean, enotnam, enavail, eisnam, eremoteio, edquot, enomedium, emediumtype,
  ecanceled, enokey, ekeyexpired, ekeyrevoked, ekeyrejected, eownerdead, enotrecoverable, ewrongseg,
  eempty, eoor, enotaligned, ebadtype, enotmapped, enoseg, emmaped, enosig, esigdisabled, ebadcodex,
  eeof,
}

unfoldable pub debug : ErrorNum → Text
debug noerr = codes "NOERR"
debug eperm = codes "EPERM"
debug enoent = codes "ENOENT"
debug esrch = codes "ESRCH"
debug eintr = codes "EINTR"
debug eio = codes "EIO"
debug enxio = codes "ENXIO"
debug e2big = codes "E2BIG"
debug enoexec = codes "ENOEXEC"
debug ebadf = codes "EBADF"
debug echild = codes "ECHILD"
debug eagain = codes "EAGAIN"
debug enomem = codes "ENOMEM"
debug eacces = codes "EACCES"
debug efault = codes "EFAULT"
debug enotblk = codes "ENOTBLK"
debug ebusy = codes "EBUSY"
debug eexist = codes "EEXIST"
debug exdev = codes "EXDEV"
debug enodev = codes "ENODEV"
debug enotdir = codes "ENOTDIR"
debug eisdir = codes "EISDIR"
debug einval = codes "EINVAL"
debug enfile = codes "ENFILE"
debug emfile = codes "EMFILE"
debug enotty = codes "ENOTTY"
debug etxtbsy = codes "ETXTBSY"
debug efbig = codes "EFBIG"
debug enospc = codes "ENOSPC"
debug espipe = codes "ESPIPE"
debug erofs = codes "EROFS"
debug emlink = codes "EMLINK"
debug epipe = codes "EPIPE"
debug edom = codes "EDOM"
debug erange = codes "ERANGE"
debug edeadlk = codes "EDEADLK"
debug enametoolong = codes "ENAMETOOLONG"
debug enolck = codes "ENOLCK"
debug enosys = codes "ENOSYS"
debug enotempty = codes "ENOTEMPTY"
debug eloop = codes "ELOOP"
debug enomsg = codes "ENOMSG"
debug eidrm = codes "EIDRM"
debug echrng = codes "ECHRNG"
debug el2nsync = codes "EL2NSYNC"
debug el3hlt = codes "EL3HLT"
debug el3rst = codes "EL3RST"
debug elnrng = codes "ELNRNG"
debug eunatch = codes "EUNATCH"
debug enocsi = codes "ENOCSI"
debug el2hlt = codes "EL2HLT"
debug ebade = codes "EBADE"
debug ebadr = codes "EBADR"
debug exfull = codes "EXFULL"
debug enoano = codes "ENOANO"
debug ebadrqc = codes "EBADRQC"
debug ebadslt = codes "EBADSLT"
debug ebfont = codes "EBFONT"
debug enostr = codes "ENOSTR"
debug enodata = codes "ENODATA"
debug etime = codes "ETIME"
debug enosr = codes "ENOSR"
debug enonet = codes "ENONET"
debug enopkg = codes "ENOPKG"
debug eremote = codes "EREMOTE"
debug enolink = codes "ENOLINK"
debug eadv = codes "EADV"
debug esrmnt = codes "ESRMNT"
debug ecomm = codes "ECOMM"
debug eproto = codes "EPROTO"
debug emultihop = codes "EMULTIHOP"
debug edotdot = codes "EDOTDOT"
debug ebadmsg = codes "EBADMSG"
debug eoverflow = codes "EOVERFLOW"
debug enotuniq = codes "ENOTUNIQ"
debug ebadfd = codes "EBADFD"
debug eremchg = codes "EREMCHG"
debug elibacc = codes "ELIBACC"
debug elibbad = codes "ELIBBAD"
debug elibscn = codes "ELIBSCN"
debug elibmax = codes "ELIBMAX"
debug elibexec = codes "ELIBEXEC"
debug eilseq = codes "EILSEQ"
debug erestart = codes "ERESTART"
debug estrpipe = codes "ESTRPIPE"
debug eusers = codes "EUSERS"
debug enotsock = codes "ENOTSOCK"
debug edestaddrreq = codes "EDESTADDRREQ"
debug emsgsize = codes "EMSGSIZE"
debug eprototype = codes "EPROTOTYPE"
debug enoprotoopt = codes "ENOPROTOOPT"
debug eprotonosupport = codes "EPROTONOSUPPORT"
debug esocktnosupport = codes "ESOCKTNOSUPPORT"
debug eopnotsupp = codes "EOPNOTSUPP"
debug epfnosupport = codes "EPFNOSUPPORT"
debug eafnosupport = codes "EAFNOSUPPORT"
debug eaddrinuse = codes "EADDRINUSE"
debug eaddrnotavail = codes "EADDRNOTAVAIL"
debug enetdown = codes "ENETDOWN"
debug enetunreach = codes "ENETUNREACH"
debug enetreset = codes "ENETRESET"
debug econnaborted = codes "ECONNABORTED"
debug econnreset = codes "ECONNRESET"
debug enobufs = codes "ENOBUFS"
debug eisconn = codes "EISCONN"
debug enotconn = codes "ENOTCONN"
debug eshutdown = codes "ESHUTDOWN"
debug etoomanyrefs = codes "ETOOMANYREFS"
debug etimedout = codes "ETIMEDOUT"
debug econnrefused = codes "ECONNREFUSED"
debug ehostdown = codes "EHOSTDOWN"
debug ehostunreach = codes "EHOSTUNREACH"
debug ealready = codes "EALREADY"
debug einprogress = codes "EINPROGRESS"
debug estale = codes "ESTALE"
debug euclean = codes "EUCLEAN"
debug enotnam = codes "ENOTNAM"
debug enavail = codes "ENAVAIL"
debug eisnam = codes "EISNAM"
debug eremoteio = codes "EREMOTEIO"
debug edquot = codes "EDQUOT"
debug enomedium = codes "ENOMEDIUM"
debug emediumtype = codes "EMEDIUMTYPE"
debug ecanceled = codes "ECANCELED"
debug enokey = codes "ENOKEY"
debug ekeyexpired = codes "EKEYEXPIRED"
debug ekeyrevoked = codes "EKEYREVOKED"
debug ekeyrejected = codes "EKEYREJECTED"
debug eownerdead = codes "EOWNERDEAD"
debug enotrecoverable = codes "ENOTRECOVERABLE"
debug ewrongseg = codes "EWRONGSEG"
debug eempty = codes "EEMPTY"
debug eoor = codes "EOOR"
debug enotaligned = codes "ENOTALIGNED"
debug ebadtype = codes "EBADTYPE"
debug enotmapped = codes "ENOTMAPPED"
debug enoseg = codes "ENOSEG"
debug emmaped = codes "EMMAPED"
debug enosig = codes "ENOSIG"
debug esigdisabled = codes "ESIGDISABLED"
debug ebadcodex = codes "EBADCODEX"
debug eeof = codes "EEOF"
