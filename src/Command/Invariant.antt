-- ===== src/Command/Invariant.antt =====
-- What holds of the state of `CommandAction` of fail2ban/server/action.py after any calls: of its flags.
use fail2ban.Common.{Bool, false, none, List, [], ◌∷◌}
use fail2ban.Common.Dict.{Key, Distinct, insert-Distinct}
use fail2ban.Common.Dict.Entries.{Entries, insert-Entries}
use fail2ban.Command.{tag_key, Run, Setup, Command, Exit, state_of, set_flags}
use fail2ban.Command.Calls.{
  start_command, stop_command, flush_command, reload_command, ban_command, reban_command,
  prolong_command, unban_command, consistency_check,
}
use fail2ban.Command.Kept.{IsFlags, Kept, execute_operation-Kept}
use fail2ban.Command.Methods.{Repairs, start_families-Kept, stop_command-Kept, flush_command-Kept}
use fail2ban.Command.Rounds.{
  ban_by-Kept, prolong_command-Kept, unban_command-Kept, consistency_check-Kept,
}

-- A call of a method
pub data Method (I : Type 0) : Type 0 where
  do_start do_stop do_flush do_reload : Method I
  do_ban do_reban do_prolong do_unban : I → Method I
  do_check : Bool → Method I

module _ {F C I : Type 0} ⦃family_key : Key F⦄ where
  -- A family is listed once, and contains items only if it is started.
  pub record IsValid (s : Command F C I) : Type 0 where
    pub distinct : Distinct s.flags
    pub items : Entries (λ f v. IsFlags v) s.flags

  IsValid-Kept : Kept (λ tag. Unit {0}) IsValid
  unfolding set_flags
  IsValid-Kept = record {
    ran = record {
      runs = λ r s a h. record { distinct = h.distinct; items = h.items };
      memory = λ m s h. record { distinct = h.distinct; items = h.items };
    };
    flags = λ f v s ok h. record {
      distinct = insert-Distinct f v s.flags h.distinct;
      items = insert-Entries (λ f' v'. IsFlags v') f v s.flags ok h.items;
    };
    reset = λ s h. record { distinct = tt; items = tt };
    epochs = λ a b s h. record { distinct = h.distinct; items = h.items };
  }

module _ {F C I : Type 0} ⦃family_key : Key F⦄ ⦃command_key : Key C⦄ (setup : Setup F C I)
    (answer : List (Run F C I) → Run F C I → Bool) where
  unfoldable pub call_method : Method I → Command F C I → Exit (Command F C I) Bool
  call_method do_start s = start_command setup answer s
  call_method do_stop s = stop_command setup answer s
  call_method do_flush s = flush_command setup answer s
  call_method do_reload s = reload_command setup answer s
  call_method (do_ban i) s = ban_command setup answer i s
  call_method (do_reban i) s = reban_command setup answer i s
  call_method (do_prolong i) s = prolong_command setup answer i s
  call_method (do_unban i) s = unban_command setup answer i s
  call_method (do_check may_repair) s = consistency_check setup answer may_repair s

  -- Calls one after another, as the actions thread makes them: an exception ends its call only.
  unfoldable pub call_methods : List (Method I) → Command F C I → Command F C I
  call_methods [] s = s
  call_methods (m ∷ ms) s = call_methods ms (state_of (call_method m s))

  module _ {P : Command F C I → Type 0} (kept : Kept (λ tag. Unit {0}) P) where
    all_repairs : Repairs (λ tag. Unit {0})
    all_repairs = record { start = tt; stop = tt; check = tt; repair = tt }

    call_method-Kept : (m : Method I) (s : Command F C I) → P s → P (state_of (call_method m s))
    unfolding call_method start_command reload_command ban_command reban_command
    call_method-Kept do_start s h = start_families-Kept kept setup answer tt none false s h
    call_method-Kept do_stop s h = stop_command-Kept kept setup answer tt s h
    call_method-Kept do_flush s h = flush_command-Kept kept setup answer tt s h
    call_method-Kept do_reload s h =
        execute_operation-Kept kept.ran setup answer _ _ (λ f ret s' h'. h') tt [] s h
    call_method-Kept (do_ban i) s h = ban_by-Kept kept setup answer all_repairs _ i s tt h
    call_method-Kept (do_reban i) s h = ban_by-Kept kept setup answer all_repairs _ i s tt h
    call_method-Kept (do_prolong i) s h =
        prolong_command-Kept kept setup answer all_repairs tt i s h
    call_method-Kept (do_unban i) s h = unban_command-Kept kept setup answer all_repairs tt i s h
    call_method-Kept (do_check b) s h = consistency_check-Kept kept setup answer all_repairs b s h

    pub call_methods-Kept : (ms : List (Method I)) (s : Command F C I) → P s → P (call_methods ms s)
    unfolding call_methods
    call_methods-Kept [] s h = h
    call_methods-Kept (m ∷ ms) s h = call_methods-Kept ms _ (call_method-Kept m s h)

  -- After any calls each family is listed once, and contains items only if it is started, whatever
  -- the commands answer and whichever calls raise an exception, if this held before.
  pub call_methods-IsValid :
      (ms : List (Method I)) (s : Command F C I) → IsValid s → IsValid (call_methods ms s)
  call_methods-IsValid ms s h = call_methods-Kept IsValid-Kept ms s h
