-- ===== src/Demo/Error.antt =====
-- `baios_error_t`, which no header of the repository declares: a constructor for each name that the
-- code of the demonstration kernel uses, told apart from the others and nothing more.

pub data Error : Type 0 where
  ok invalid_arg busy no_memory not_found already_exists overflow corrupt timeout permission ipc :
      Error
