-- ===== src/Shell/Command/Debug.antt =====
-- `Debug` of `IOType` and `Command` in parch_utils/shell/src/main.rs.
use parch_testbench.Prelude.{List, [], ◌∷◌, ◌++◌, Text, codes}
use parch_testbench.Formats.{Formats}
use parch_testbench.Shell.Command.{Command, IoType, default, file, cmd, command, exec_path}

module _ (f : Formats) where
  -- `{:?}` of an input or output; a pipe shows the path of its command.
  unfoldable pub debug_io : IoType → Text
  debug_io default = codes "Default"
  debug_io (file arg0) = codes "File(" ++ (f.debug_str arg0 ++ codes ")")
  debug_io (cmd arg0) = codes "Cmd(" ++ (f.debug_str (exec_path arg0) ++ codes ")")

  abbrev pub debug_args : List Text → Text
  debug_args [] = []
  debug_args (a ∷ rest) = codes "\t\"" ++ (a ++ (codes "\"\n" ++ debug_args rest))

  unfoldable pub debug_command : Command → Text
  unfolding debug_io
  debug_command (command exec_path args input output) =
      codes "Command "
      ++ (exec_path
          ++ (codes "\narguments:\n"
              ++ (debug_args args
                  ++ (codes "Input : "
                      ++ (debug_io input
                          ++ (codes "\nOutput: " ++ (debug_io output ++ codes "\n")))))))
